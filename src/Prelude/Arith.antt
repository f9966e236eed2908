-- ===== src/Prelude/Arith.antt =====
-- Operations on `int` where the exact result fits in 64 bits.
use app_gocms.Prelude.Int.{pos, wrap64, add64, sub64, mul64, div64, sub_ℕ}
use Prim.Native.Nat.{ℕ, suc, ◌+◌, ◌*◌, ◌/◌, ◌^◌, ◌<◌}
use mathlib.Core.Path.{◌≡◌}
use native.Mathlib.Omega.{arith}

pub wrap64_fits : (n : ℕ) → n < 2 ^ 63 → wrap64 (pos n) ≡ pos n
unfolding wrap64
wrap64_fits n h = ground arith

pub sub64_one : (n : ℕ) → suc n < 2 ^ 63 → sub64 (pos (suc n)) (pos 1) ≡ pos n
unfolding sub64
sub64_one n h = ground arith

pub add64_fits : (a b : ℕ) → a + b < 2 ^ 63 → add64 (pos a) (pos b) ≡ pos (a + b)
unfolding add64
add64_fits a b h = ground arith

pub sub_ℕ-zero : (x y n : ℕ) → x ≡ n → y ≡ 0 → sub_ℕ x y ≡ pos n
sub_ℕ-zero x y n h k = ground arith

pub mul64_fits : (a b : ℕ) → a * b < 2 ^ 63 → mul64 (pos a) (pos b) ≡ pos (a * b)
unfolding mul64
mul64_fits a b h =
    rw (sub_ℕ-zero (a * b + 0 * 0) (a * 0 + 0 * b) (a * b) (omega arith) (omega arith))
      (wrap64_fits (a * b) h)

pub div64_fits : (a b : ℕ) → a < 2 ^ 63 → div64 (pos a) (pos (suc b)) ≡ pos (a / suc b)
unfolding div64
div64_fits a b h =
    rw (sub_ℕ-zero (a / suc b + 0 / 0) (a / 0 + 0 / suc b) (a / suc b) (omega arith) (grind arith))
      (wrap64_fits (a / suc b) (grind arith))
