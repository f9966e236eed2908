-- ===== src/Prelude/Errors.antt =====
-- Go's `(value, error)` results, and operations on shared state that may return an error. What was
-- written before an error stays written, so the state comes back beside the error too.
use Prim.Native.Nat.{ℕ}
use mathlib.Core.Path.{◌≡◌, refl, ap}
use native.Mathlib.Omega.{arith}
use mathlib.Core.Bool.{Bool, true, false}
use mathlib.Core.Option.{Option, none, some}
use mathlib.Core.List.{List}

-- An `error` is the text that its `Error` method returns.
abbrev pub Error : Type 0
Error = List ℕ

pub data Result {ℓ} (A : Type ℓ) : Type ℓ where
  ok : A → Result A
  err : Error → Result A

abbrev pub Exec {ℓ} : Type ℓ → Type ℓ → Type ℓ
Exec S A = S → Result A × S

module _ {ℓ} {S A : Type ℓ} where
  abbrev pub pure : A → Exec S A
  pure a s = (ok a, s)

  abbrev pub raise : Error → Exec S A
  raise e s = (err e, s)

module _ {ℓ} {S A : Type ℓ} where
  abbrev pub lift : Result A → Exec S A
  lift r s = (r, s)

  -- `if !ok { return err }`
  abbrev pub require : Error → Option A → Exec S A
  require e none s = (err e, s)
  require e (some a) s = (ok a, s)

  -- A call that returns no error, such as `now()`.
  abbrev pub call : (S → A × S) → Exec S A
  call f s = (ok (f s).0, (f s).1)

module _ {ℓ} {S : Type ℓ} where
  -- `if test { return err }`
  abbrev pub fail_if : Bool → Error → Exec S Unit
  fail_if true e s = (err e, s)
  fail_if false e s = (ok tt, s)

module _ {ℓ} {S A B : Type ℓ} where
  infixl 5 ◌>>=◌ ◌>>◌
  -- `if err != nil { return err }` after a call.
  abbrev pub continue : Result A → (A → Exec S B) → Exec S B
  continue (ok a) f s = f a s
  continue (err e) f s = (err e, s)

  abbrev pub ◌>>=◌ : Exec S A → (A → Exec S B) → Exec S B
  ◌>>=◌ m f s = continue (m s).0 f (m s).1

  abbrev pub ◌>>◌ : Exec S A → Exec S B → Exec S B
  m >> n = m >>= λ _. n

  continue_ok :
      (r : Result A) (f : A → Exec S B) (s : S) (b : B)
      → (continue r f s).0 ≡ ok b
      → (a : A) × (r ≡ ok a) × ((f a s).0 ≡ ok b)
  continue_ok (ok a) f s b h = (a, refl, h)
  continue_ok (err e) f s b h = absurd (ground arith)

  -- What a value says of the two calls.
  pub bind_ok :
      (m : Exec S A) (f : A → Exec S B) (s : S) (b : B)
      → ((m >>= f) s).0 ≡ ok b
      → (a : A) × ((m s).0 ≡ ok a) × ((f a (m s).1).0 ≡ ok b)
  bind_ok m f s b h = continue_ok (m s).0 f (m s).1 b h

abbrev made {ℓ} : {A : Type ℓ} → A → Result A → A
made a (ok b) = b
made a (err e) = a

pub ok-injective {ℓ} : {A : Type ℓ} (a b : A) → ok a ≡ ok b → a ≡ b
ok-injective a b h = ap (made a) h
