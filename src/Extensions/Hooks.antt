-- ===== src/Extensions/Hooks.antt =====
-- internal/extensions/runtime.go: the hook bus. An action and a filter have the same fields but for
-- the type of `Handle`, which is an argument, and so is the state that the handlers work on. The
-- slice that the bus holds under a hook is what its map returns for the name.
pub mod Order
pub mod Filters
use app_gocms.Prelude.{
  ℕ, ℤ, ltb_ℤ, Bool, true, false, Option, none, some, List, [], ◌∷◌, ◌++◌, if◌then◌else◌, Result,
  ok, err, Error, Exec, pure, raise, lift, call, ◌>>=◌, ◌>>◌,
}
use app_gocms.Text.{Text, codes, ◌==◌}
use app_gocms.Text.Quote.{quote}

pub record Hook {ℓ} (F : Type ℓ) : Type ℓ where
  pub id : Text
  pub priority : ℤ
  pub handle : F

pub record HookBus {ℓ κ} (A : Type ℓ) (F : Type κ) : Type (ℓ ⊔ κ) where
  pub actions : Text → List (Hook A)
  pub filters : Text → List (Hook F)

module _ {ℓ} {F : Type ℓ} where
  -- After every element of the same priority, as a stable sort does.
  unfoldable pub insert : Hook F → List (Hook F) → List (Hook F)
  insert h [] = h ∷ []
  insert h (x ∷ xs) = if ltb_ℤ h.priority x.priority then h ∷ x ∷ xs else x ∷ insert h xs

  unfoldable pub insert_all : List (Hook F) → List (Hook F) → List (Hook F)
  unfolding insert
  insert_all [] sorted = sorted
  insert_all (x ∷ xs) sorted = insert_all xs (insert x sorted)

  -- `sort.SliceStable` by the priorities.
  unfoldable pub stable_sort : List (Hook F) → List (Hook F)
  unfolding insert_all
  stable_sort xs = insert_all xs []

  -- `m[hook] = append(m[hook], handler)`, and the sort after it.
  unfoldable pub register : Text → Hook F → (Text → List (Hook F)) → Text → List (Hook F)
  unfolding stable_sort
  register hook handler m name =
      if name == hook then stable_sort (m hook ++ handler ∷ []) else m name

module _ {ℓ κ} {A : Type ℓ} {F : Type κ} where
  unfoldable pub new_hook_bus : HookBus A F
  new_hook_bus = record { actions = λ _. []; filters = λ _. [] }

  unfoldable pub add_action : Text → Hook A → HookBus A F → HookBus A F
  unfolding register
  add_action hook handler b = record b { actions = register hook handler b.actions }

  unfoldable pub add_filter : Text → Hook F → HookBus A F → HookBus A F
  unfolding register
  add_filter hook handler b = record b { filters = register hook handler b.filters }

module _ {ℓ} {S Any : Type ℓ} where
  unfoldable pub run_actions : List (Hook (Any → Exec S (Unit {ℓ}))) → Any → Exec S (Unit {ℓ})
  run_actions [] payload = pure tt
  run_actions (h ∷ hs) payload = h.handle payload >> run_actions hs payload

module _ {ℓ} {S Any F : Type ℓ} where
  unfoldable pub dispatch : HookBus (Any → Exec S (Unit {ℓ})) F → Text → Any → Exec S (Unit {ℓ})
  unfolding run_actions
  dispatch b hook payload = run_actions (b.actions hook) payload

incompatible : Text → Error
incompatible hook = codes "filter " ++ (quote hook ++ codes " returned incompatible type")

-- `embed` is `any(value)`, and `cast` is `next.(T)`.
module _ {ℓ} {Any T : Type ℓ} (embed : T → Any) (cast : Any → Option T) where
  -- What one filter makes of the current value.
  unfoldable pub typed : Text → Result Any → Result T
  unfolding incompatible
  typed hook (err e) = err e
  typed hook (ok next) = elim (cast next) [ some value ↦ ok value | none ↦ err (incompatible hook) ]

module _ {ℓ} {S Any T : Type ℓ} (embed : T → Any) (cast : Any → Option T) where
  -- The value that is returned beside an error is the one that was given.
  unfoldable pub run_filters :
      List (Hook (Any → Exec S Any)) → Text → T → T → S → (T × Option Error) × S
  unfolding typed
  run_filters [] hook value current s = ((current, none), s)
  run_filters (h ∷ hs) hook value current s =
      let after = h.handle (embed current) s in
      let rest = run_filters hs hook value in
      elim (typed embed cast hook after.0) [
        | ok next ↦ rest next after.1
        | err e ↦ ((value, some e), after.1)
      ]

  unfoldable pub apply_filter :
      {A : Type ℓ} → Option (HookBus A (Any → Exec S Any)) → Text → T → S → (T × Option Error) × S
  unfolding run_filters
  apply_filter none hook value s = ((value, none), s)
  apply_filter (some b) hook value s = run_filters (b.filters hook) hook value value s
