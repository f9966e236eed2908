-- ===== src/Extensions/Stopped.antt =====
-- An activation of plugins that fails: where it stopped, and what it leaves.
use mathlib.Core.Path.{subst}
use mathlib.Core.Option.{some-injective}
use app_gocms.Prelude.{
  ◌≡◌, refl, sym, ap, ◌∙◌, inl, inr, Option, none, some, List, [], ◌∷◌, ◌++◌, ◌⊎◌, arith,
  if◌then◌else◌, Error,
}
use app_gocms.Text.{Text, ◌==◌}
use app_gocms.Extensions.{
  active, failed, Context, Plugin, Runtime, States, Progress, unknown, stopped, reached,
  activation_error, with_state, contains_id, plugin_named, after_register, at_plugin, activate_each,
  activate, empty_context, finish_activation,
}
use app_gocms.Extensions.Activation.{==_sym, set_state}

module _ {H D : Type 0} where
  error_of : Progress H D → Error
  error_of (stopped e s) = e
  error_of _ = []

  states_of : Progress H D → States
  states_of (stopped e s) = s
  states_of _ = λ _. none

  -- Of the ids of `Activate`, those before `id` registered, one after the other, and then `id` did
  -- not, with `cause`: the error `e` and the states `last` after it, where the states were `states`
  -- and the context was `next`.
  abbrev pub StoppedAt :
      List (Text × Plugin H D) → List Text → Context H D → States → Error → States → Type 0
  StoppedAt plugins ids next states e last =
      (before : List Text) × (id : Text) × (after : List Text) × (p : Plugin H D) × (c : Context H
        D)
      × (t : States) × (cause : Error) × (ids ≡ before ++ id ∷ after)
      × (activate_each plugins before next states ≡ reached c t)
      × (plugin_named id plugins ≡ some p)
      × ((p.registration c).0 ≡ some cause)
      × (e ≡ activation_error id cause)
      × ((name : Text)
          → last name ≡ (
              if name == id
              then some failed
              else if contains_id before name
              then some active
              else states name))

  after_register_stopped :
      (plugins : List (Text × Plugin H D)) (id : Text) (next : Context H D) (states : States)
      (ids : List Text) (e : Error) (last : States) (p : Plugin H D)
      → plugin_named id plugins ≡ some p
      → ((c : Context H D) (t : States)
          → activate_each plugins ids c t ≡ stopped e last
          → StoppedAt plugins ids c t e last)
      → (made : Option Error × Context H D) → p.registration next ≡ made
      → after_register id states (activate_each plugins ids) made ≡ stopped e last
      → StoppedAt plugins (id ∷ ids) next states e last
  unfolding activate_each contains_id with_state error_of states_of
  after_register_stopped plugins id next states ids e last p known more (some cause, c) is h = (
    [],
    id,
    ids,
    p,
    next,
    states,
    cause,
    refl,
    refl,
    known,
    ap (λ x. x.0) is,
    sym (ap error_of h),
    λ name. ap (λ x. states_of x name) (sym h),
  )
  after_register_stopped plugins id next states ids e last p known more (none, c) is h =
      let (before, at, after, q, d, t, cause, whole, ran, named, fails, wrapped, kept) =
        more c (with_state id active states) h in
      let first : activate_each plugins (id ∷ before) next states
          ≡ activate_each plugins before c (with_state id active states) =
        rw (known, is) refl in
      (
        id ∷ before,
        at,
        after,
        q,
        d,
        t,
        cause,
        ap (λ x. id ∷ x) whole,
        first ∙ ran,
        named,
        fails,
        wrapped,
        λ name.
            kept name
            ∙ rw (==_sym name id) (
                ap (λ x. if name == at then some failed else x)
                  (set_state (id == name) (contains_id before name) (states name))),
      )

  at_plugin_stopped :
      (plugins : List (Text × Plugin H D)) (id : Text) (next : Context H D) (states : States)
      (ids : List Text) (e : Error) (last : States)
      → ((c : Context H D) (t : States)
          → activate_each plugins ids c t ≡ stopped e last
          → StoppedAt plugins ids c t e last)
      → (o : Option (Plugin H D)) → plugin_named id plugins ≡ o
      → at_plugin id next states (activate_each plugins ids) o ≡ stopped e last
      → StoppedAt plugins (id ∷ ids) next states e last
  at_plugin_stopped plugins id next states ids e last more none is h = absurd (ground arith)
  at_plugin_stopped plugins id next states ids e last more (some p) is h =
      after_register_stopped plugins id next states ids e last p is more (p.registration next) refl
        h

  -- Where the loop of `activate` stops.
  activate_each_stopped :
      (plugins : List (Text × Plugin H D)) (ids : List Text) (next : Context H D)
      (states last : States) (e : Error)
      → activate_each plugins ids next states ≡ stopped e last
      → StoppedAt plugins ids next states e last
  unfolding activate_each
  activate_each_stopped plugins [] next states last e h = absurd (ground arith)
  activate_each_stopped plugins (id ∷ ids) next states last e h =
      at_plugin_stopped plugins id next states ids e last
        (λ c t g. activate_each_stopped plugins ids c t last e g) (plugin_named id plugins) refl h

  -- An activation that fails, for any list of ids and any plugins, leaves the active context and the
  -- plugins as they are. It leaves the states too, or it stopped at an id of the list whose plugin
  -- failed to register, after the plugins of all the ids before it had registered: the error
  -- names that id, with the error of the plugin; the state of the plugin is that it failed, and every
  -- other id before it is active by its state, though the active context is the one from before the
  -- activation; the other states are kept.
  pub activate_failed :
      (ids : List Text) (r r' : Runtime H D) (e : Error)
      → activate ids r ≡ (some e, r')
      → (r'.active_context ≡ r.active_context)
        × (r'.plugins ≡ r.plugins)
        × ((r' ≡ r) ⊎ StoppedAt r.plugins ids empty_context r.states e r'.states)
  unfolding activate finish_activation
  activate_failed ids r r' e =
      from (activate_each r.plugins ids empty_context r.states)
        λ states f h. activate_each_stopped r.plugins ids empty_context r.states states f h
    where
      from :
          (p : Progress H D)
          → ((states : States) (f : Error)
              → p ≡ stopped f states
              → StoppedAt r.plugins ids empty_context r.states f states)
          → finish_activation r ids p ≡ (some e, r')
          → (r'.active_context ≡ r.active_context)
            × (r'.plugins ≡ r.plugins)
            × ((r' ≡ r) ⊎ StoppedAt r.plugins ids empty_context r.states e r'.states)
      from (unknown id) stop h = (
        ap (λ x. x.1.active_context) (sym h),
        ap (λ x. x.1.plugins) (sym h),
        inl (sym (ap (λ x. x.1) h)),
      )
      from (stopped f states) stop h = (
        ap (λ x. x.1.active_context) (sym h),
        ap (λ x. x.1.plugins) (sym h),
        inr (
            subst (λ x. StoppedAt r.plugins ids empty_context r.states x r'.states)
              (some-injective f e (ap (λ x. x.0) h))
              (subst (λ (x : States). StoppedAt r.plugins ids empty_context r.states f x)
                (ap (λ x. x.1.states) h) (stop states f refl))),
      )
      from (reached c states) stop h = absurd (ground arith)
