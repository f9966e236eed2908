-- ===== src/Extensions/Activation.antt =====
-- The activation of plugins that succeeds: the states after it.
use mathlib.Core.Path.{subst}
use app_gocms.Prelude.{
  ◌≡◌, refl, sym, ap, ◌∙◌, inl, inr, Bool, true, false, not, ◌&&◌, ◌||◌, Option, none, some, List,
  [], ◌∷◌, arith, if◌then◌else◌, Error, Bool-cases,
}
use app_gocms.Text.{Text, ◌==◌}
use app_gocms.Text.Laws.{==_refl, ==_iff}
use app_gocms.Extensions.{
  State, active, Context, Plugin, Runtime, States, Progress, unknown, stopped, reached, with_state,
  contains_id, is_active, plugin_named, after_register, at_plugin, activate_each, deactivate_others,
  settle, activate, empty_context, finish_activation,
}

pub ==_sym : (x y : Text) → (x == y) ≡ (y == x)
==_sym x y = elim (Bool-cases (x == y)) [
  | inl e ↦ e ∙ sym ((==_iff y x).1 (sym ((==_iff x y).0 e)))
  | inr e ↦ elim (Bool-cases (y == x)) [
    | inl f ↦ (==_iff x y).1 (sym ((==_iff y x).0 f)) ∙ sym f
    | inr f ↦ e ∙ sym f
  ]
]

pub set_state :
    (b c : Bool) (states : Option State)
    → (if c then some active else if b then some active else states)
      ≡ (if b || c then some active else states)
set_state true true states = refl
set_state true false states = refl
set_state false c states = refl

settle_kept :
    (id : Text) (ids : List Text) (states : States) (name : Text)
    → contains_id ids name ≡ true
    → settle id ids states name ≡ states name
unfolding settle with_state
settle_kept id ids states name h = elim (Bool-cases (name == id)) [
  | inl e ↦ rw (subst (λ x. contains_id ids x ≡ true) ((==_iff name id).0 e) h) refl
  | inr e ↦ elim (Bool-cases (not (contains_id ids id) && is_active (states id))) [
    | inl f ↦ rw (f, e) refl
    | inr f ↦ rw f refl
  ]
]

settle_inactive :
    (id : Text) (ids : List Text) (states : States) (name : Text)
    → is_active (states name) ≡ false
    → is_active (settle id ids states name) ≡ false
unfolding settle with_state
settle_inactive id ids states name h =
    elim (Bool-cases (not (contains_id ids id) && is_active (states id))) [
      | inl f ↦ elim (Bool-cases (name == id)) [ inl e ↦ rw (f, e) refl | inr e ↦ rw (f, e) h ]
      | inr f ↦ rw f h
    ]

settle_own :
    (id : Text) (ids : List Text) (states : States)
    → contains_id ids id ≡ false
    → is_active (settle id ids states id) ≡ false
unfolding settle with_state
settle_own id ids states h = elim (Bool-cases (is_active (states id))) [
  | inl e ↦ rw (h, e, ==_refl id) refl
  | inr e ↦ rw (h, e) e
]

module _ {H D : Type 0} where
  after_register_state :
      (id : Text) (states : States) (rest : Context H D → States → Progress H D) (ids : List Text)
      (after : Context H D) (last : States) (name : Text)
      → ((c : Context H D) (t : States)
          → rest c t ≡ reached after last
          → last name ≡ (if contains_id ids name then some active else t name))
      → (made : Option Error × Context H D)
      → after_register id states rest made ≡ reached after last
      → last name ≡ (if contains_id (id ∷ ids) name then some active else states name)
  unfolding contains_id with_state
  after_register_state id states rest ids after last name more (some e, c) h = absurd (ground arith)
  after_register_state id states rest ids after last name more (none, c) h =
      more c (with_state id active states) h
      ∙ rw (==_sym name id) (set_state (id == name) (contains_id ids name) (states name))

  at_plugin_state :
      (id : Text) (next : Context H D) (states : States)
      (rest : Context H D → States → Progress H D) (ids : List Text) (after : Context H D)
      (last : States) (name : Text)
      → ((c : Context H D) (t : States)
          → rest c t ≡ reached after last
          → last name ≡ (if contains_id ids name then some active else t name))
      → (o : Option (Plugin H D)) → at_plugin id next states rest o ≡ reached after last
      → last name ≡ (if contains_id (id ∷ ids) name then some active else states name)
  at_plugin_state id next states rest ids after last name more none h = absurd (ground arith)
  at_plugin_state id next states rest ids after last name more (some p) h =
      after_register_state id states rest ids after last name more (p.registration next) h

  -- What the loop of `activate` leaves as the state of a name.
  activate_each_state :
      (plugins : List (Text × Plugin H D)) (ids : List Text) (next after : Context H D)
      (states reached_states : States) (name : Text)
      → activate_each plugins ids next states ≡ reached after reached_states
      → reached_states name ≡ (if contains_id ids name then some active else states name)
  unfolding activate_each contains_id
  activate_each_state plugins [] next after states last name h = ground arith
  activate_each_state plugins (id ∷ ids) next after states last name h =
      at_plugin_state id next states (activate_each plugins ids) ids after last name
        (λ c t g. activate_each_state plugins ids c after t last name g) (plugin_named id plugins) h

  deactivate_others_kept :
      (plugins : List (Text × Plugin H D)) (ids : List Text) (states : States) (name : Text)
      → contains_id ids name ≡ true
      → deactivate_others plugins ids states name ≡ states name
  unfolding deactivate_others
  deactivate_others_kept [] ids states name h = refl
  deactivate_others_kept ((id, p) ∷ plugins) ids states name h =
      deactivate_others_kept plugins ids (settle id ids states) name h
      ∙ settle_kept id ids states name h

  deactivate_others_inactive :
      (plugins : List (Text × Plugin H D)) (ids : List Text) (states : States) (name : Text)
      → is_active (states name) ≡ false
      → is_active (deactivate_others plugins ids states name) ≡ false
  unfolding deactivate_others
  deactivate_others_inactive [] ids states name h = h
  deactivate_others_inactive ((id, p) ∷ plugins) ids states name h =
      deactivate_others_inactive plugins ids (settle id ids states) name
        (settle_inactive id ids states name h)

  deactivate_others_known :
      (plugins : List (Text × Plugin H D)) (ids : List Text) (states : States) (name : Text)
      (q : Plugin H D)
      → plugin_named name plugins ≡ some q
      → contains_id ids name ≡ false
      → is_active (deactivate_others plugins ids states name) ≡ false
  unfolding deactivate_others plugin_named
  deactivate_others_known [] ids states name q h out = absurd (ground arith)
  deactivate_others_known ((id, p) ∷ plugins) ids states name q h out =
      elim (Bool-cases (id == name)) [
        | inl e ↦ deactivate_others_inactive plugins ids (settle id ids states) name (
            subst (λ x. is_active (settle id ids states x) ≡ false) ((==_iff id name).0 e)
              (settle_own id ids states
                (subst (λ x. contains_id ids x ≡ false) (sym ((==_iff id name).0 e)) out)))
        | inr e ↦ deactivate_others_known plugins ids (settle id ids states) name q (rw e at h) out
      ]

  activate_ok :
      (ids : List Text) (r r' : Runtime H D)
      → activate ids r ≡ (none, r')
      → (c : Context H D) × (states : States) × (activate_each r.plugins ids empty_context r.states
          ≡ reached c states)
        × (r' ≡ record r { active_context = c; states = deactivate_others r.plugins ids states })
  unfolding activate finish_activation
  activate_ok ids r r' = from (activate_each r.plugins ids empty_context r.states)
    where
      from :
          (p : Progress H D)
          → finish_activation r ids p ≡ (none, r')
          → (c : Context H D) × (states : States) × (p ≡ reached c states)
            × (r'
                ≡ record r { active_context = c; states = deactivate_others r.plugins ids states })
      from (unknown id) h = absurd (ground arith)
      from (stopped e states) h = absurd (ground arith)
      from (reached c states) h = (c, states, refl, sym (ap (λ x. x.1) h))

  -- After an activation without an error, an installed plugin is active if it was named, and is not
  -- active if it was not.
  pub activate_exact :
      (ids : List Text) (r r' : Runtime H D) (name : Text) (p : Plugin H D)
      → activate ids r ≡ (none, r')
      → plugin_named name r.plugins ≡ some p
      → is_active (r'.states name) ≡ contains_id ids name
  unfolding is_active
  activate_exact ids r r' name p h known =
      let (c, states, reach, made) = activate_ok ids r r' h in
      let at_end = activate_each_state r.plugins ids empty_context c r.states states name reach in
      ap (λ (x : Runtime H D). is_active (x.states name)) made
      ∙ elim (Bool-cases (contains_id ids name)) [
        | inl e ↦
            ap is_active (
              deactivate_others_kept r.plugins ids states name e
              ∙ at_end
              ∙ ap (λ b. if b then some active else r.states name) e)
            ∙ sym e
        | inr e ↦ deactivate_others_known r.plugins ids states name p known e ∙ sym e
      ]
