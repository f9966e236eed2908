-- ===== src/Rest/Pagination/Overflow.antt =====
-- `listEnvelope` where its arithmetic overflows: the slice expression panics.
use Prim.Native.Nat.{min}
use app_gocms.Prelude.{
  ℕ, suc, ◌+◌, ◌-◌, ◌*◌, ◌^◌, ◌≤◌, ◌<◌, pos, negsuc, add64, mul64, wrap64, ◌≡◌, refl, none, List,
  arith, length,
}
use app_gocms.Prelude.Arith.{sub64_one, mul64_fits, sub_ℕ-zero}
use app_gocms.Rest.Pagination.{list_envelope, slice, at_most}
use app_gocms.Rest.Pagination.Pages.{at_most_pos}

-- A number whose 64 bits have the sign bit set.
wrap64_negative : (n : ℕ) → 2 ^ 63 ≤ n → n < 2 ^ 64 → wrap64 (pos n) ≡ negsuc (2 ^ 64 - n - 1)
unfolding wrap64
wrap64_negative n h k = ground arith

mul64_overflows :
    (a b : ℕ)
    → 2 ^ 63 ≤ a * b
    → a * b < 2 ^ 64
    → mul64 (pos a) (pos b) ≡ negsuc (2 ^ 64 - a * b - 1)
unfolding mul64
mul64_overflows a b h k =
    rw (sub_ℕ-zero (a * b + 0 * 0) (a * 0 + 0 * b) (a * b) (omega arith) (omega arith))
      (wrap64_negative (a * b) h k)

add64_overflows :
    (a b : ℕ)
    → 2 ^ 63 ≤ a + b
    → a + b < 2 ^ 64
    → add64 (pos a) (pos b) ≡ negsuc (2 ^ 64 - (a + b) - 1)
unfolding add64
add64_overflows a b h k =
    rw (sub_ℕ-zero (a + b) (0 + 0) (a + b) refl (omega arith)) (wrap64_negative (a + b) h k)

at_most_negsuc : (t n : ℕ) → at_most (pos t) (negsuc n) ≡ negsuc n
unfolding at_most
at_most_negsuc t n = ground arith

-- A page whose first index lies from 2 ^ 63 on, and below 2 ^ 64, is a panic.
pub list_envelope_start_overflow {ℓ} :
    {A : Type ℓ} (items : List A) (p m : ℕ)
    → suc p < 2 ^ 63
    → 2 ^ 63 ≤ p * suc m
    → p * suc m < 2 ^ 64
    → list_envelope items (pos (suc p)) (pos (suc m)) ≡ none
unfolding list_envelope slice
list_envelope_start_overflow items p m hp low high =
    rw (sub64_one p hp, mul64_overflows p (suc m) low high, at_most_negsuc (length items))

-- A page whose first index fits while its last index, cut to the length of the list before the size
-- of the page is added, does not fit, is a panic: `per_page` near 2 ^ 63, on any page but the
-- first, of a list that is not empty.
pub list_envelope_stop_overflow {ℓ} :
    {A : Type ℓ} (items : List A) (p m : ℕ)
    → suc p < 2 ^ 63
    → p * suc m < 2 ^ 63
    → suc m < 2 ^ 63
    → length items < 2 ^ 63
    → 2 ^ 63 ≤ min (length items) (p * suc m) + suc m
    → list_envelope items (pos (suc p)) (pos (suc m)) ≡ none
unfolding list_envelope slice
list_envelope_stop_overflow items p m hp hf hm hl over = rw (
  sub64_one p hp,
  mul64_fits p (suc m) hf,
  at_most_pos (length items) (p * suc m),
  add64_overflows (min (length items) (p * suc m)) (suc m) over (omega arith),
  at_most_negsuc (length items),
)
