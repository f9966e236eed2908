-- ===== src/Extensions/Hooks/Filters.antt =====
-- The handlers that run: what `Dispatch` and `ApplyFilter` do when one of them fails.
use app_gocms.Prelude.{
  ◌≡◌, refl, Option, some, List, [], ◌∷◌, ◌++◌, Result, ok, err, Error, Exec, arith,
}
use app_gocms.Prelude.Errors.{continue}
use app_gocms.Text.{Text}
use app_gocms.Extensions.Hooks.{Hook, run_actions, run_filters, typed}

module _ {ℓ} {S : Type ℓ} where
  stop_after :
      (r : Result (Unit {ℓ})) (m n : Exec S (Unit {ℓ})) (s t u : S) (e : Error)
      → continue r (λ _. m) s ≡ (ok tt, t)
      → (m s ≡ (ok tt, t) → n s ≡ (err e, u))
      → continue r (λ _. n) s ≡ (err e, u)
  stop_after (ok tt) m n s t u e h later = later h
  stop_after (err f) m n s t u e h later = absurd (ground arith)

module _ {ℓ} {S Any : Type ℓ} where
  -- When the handlers before it return no error and a handler fails, those after it do not run: its
  -- error and its state are returned.
  run_actions_stop :
      (before after : List (Hook (Any → Exec S (Unit {ℓ})))) (h : Hook (Any → Exec S (Unit {ℓ})))
      (payload : Any) (s t u : S) (e : Error)
      → run_actions before payload s ≡ (ok tt, t)
      → h.handle payload t ≡ (err e, u)
      → run_actions (before ++ h ∷ after) payload s ≡ (err e, u)
  unfolding run_actions
  run_actions_stop [] after h payload s t u e hb hh = ground arith
  run_actions_stop (x ∷ before) after h payload s t u e hb hh =
      let first = x.handle payload s in
      stop_after first.0 (run_actions before payload) (run_actions (before ++ h ∷ after) payload)
        first.1 t u e hb λ rest. run_actions_stop before after h payload first.1 t u e rest hh

module _ {ℓ} {S T : Type ℓ} where
  failed_after :
      (value : T) (e : Error) (rest : T → S → (T × Option Error) × S) (r : Result T) (s : S)
      → ((n : T) → (rest n s).0.1 ≡ some e → (rest n s).0.0 ≡ value)
      → (elim r as (λ _. (T × Option Error) × S) [
        | ok next ↦ rest next s
        | err f ↦ ((value, some f), s)
      ]).0.1
        ≡ some e
      → (elim r as (λ _. (T × Option Error) × S) [
        | ok next ↦ rest next s
        | err f ↦ ((value, some f), s)
      ]).0.0
        ≡ value
  failed_after value e rest (ok n) s later h = later n h
  failed_after value e rest (err f) s later h = refl

module _ {ℓ} {S Any T : Type ℓ} (embed : T → Any) (cast : Any → Option T) where
  -- The value beside an error of the filters is the one that was given, whatever the filters before
  -- the failure made of it.
  run_filters_failed :
      (hs : List (Hook (Any → Exec S Any))) (hook : Text) (value current : T) (s : S) (e : Error)
      → (run_filters embed cast hs hook value current s).0.1 ≡ some e
      → (run_filters embed cast hs hook value current s).0.0 ≡ value
  unfolding run_filters
  run_filters_failed [] hook value current s e h = ground arith
  run_filters_failed (x ∷ hs) hook value current s e h =
      let after = x.handle (embed current) s in
      failed_after value e (run_filters embed cast hs hook value) (typed embed cast hook after.0)
        after.1 (λ n. run_filters_failed hs hook value n after.1 e) h
