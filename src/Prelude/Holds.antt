-- ===== src/Prelude/Holds.antt =====
-- What an operation keeps of the state, whether it returns a value or an error: a rule for each way
-- to build an operation.
use mathlib.Core.Path.{◌≡◌, refl}
use mathlib.Core.Bool.{Bool, true, false}
use mathlib.Core.Option.{Option, none, some}
use app_gocms.Prelude.Tests.{if◌then◌else◌}
use app_gocms.Prelude.Errors.{
  Result, ok, err, Error, Exec, pure, raise, lift, require, call, fail_if, ◌>>=◌, continue,
}

-- Where the property holds before the operation it holds after it.
pub record Holds {ℓ} {S A : Type ℓ} (P : S → Type ℓ) (m : Exec S A) : Type ℓ where
  pub after : (s : S) → P s → P (m s).1

module _ {ℓ} {S A B : Type ℓ} (P : S → Type ℓ) where
  after_continue :
      (r : Result A) (f : A → Exec S B) (t : S)
      → P t
      → ((a : A) → r ≡ ok a → Holds P (f a))
      → P (continue r f t).1
  after_continue (err e) f t before next = before
  after_continue (ok a) f t before next = (next a refl).after t before

module _ {ℓ} {S A : Type ℓ} {P : S → Type ℓ} where
  pub Holds-require : (e : Error) (o : Option A) → Holds P (require e o)
  Holds-require e (some a) = record { after = λ t before. before }
  Holds-require e none = record { after = λ t before. before }

  pub Holds-lift : (r : Result A) → Holds P (lift r)
  Holds-lift r = record { after = λ t before. before }

  pub Holds-call : (f : S → A × S) → ((t : S) → P t → P (f t).1) → Holds P (call f)
  Holds-call f still = record { after = still }

  pub Holds-if :
      (test : Bool) (m n : Exec S A) → Holds P m → Holds P n → Holds P (if test then m else n)
  Holds-if false m n hm hn = hn
  Holds-if true m n hm hn = hm

  pub Holds-raise : (e : Error) → Holds P (raise {A = A} e)
  Holds-raise e = record { after = λ t before. before }

  pub Holds-pure : (a : A) → Holds P (pure a)
  Holds-pure a = record { after = λ t before. before }

module _ {ℓ} {S : Type ℓ} {P : S → Type ℓ} where
  pub Holds-fail_if : (test : Bool) (e : Error) → Holds P (fail_if {S = S} test e)
  Holds-fail_if false e = record { after = λ t before. before }
  Holds-fail_if true e = record { after = λ t before. before }

module _ {ℓ} {S A B : Type ℓ} {P : S → Type ℓ} where
  -- What follows a check may use that the check has passed.
  pub Holds-check :
      (r : Result A) (f : A → Exec S B)
      → ((a : A) → r ≡ ok a → Holds P (f a))
      → Holds P (lift r >>= f)
  Holds-check r f next = record { after = λ t before. after_continue P r f t before next }

  pub Holds-bind :
      (m : Exec S A) (f : A → Exec S B) → ((a : A) → Holds P (f a)) → Holds P m → Holds P (m >>= f)
  Holds-bind m f next first = record {
    after = λ t before. after_continue P (m t).0 f (m t).1 (first.after t before) (λ a _. next a);
  }

pub ruleset holds_rules =
    (Holds-bind, Holds-fail_if, Holds-if, Holds-require, Holds-lift, Holds-raise, Holds-pure)
