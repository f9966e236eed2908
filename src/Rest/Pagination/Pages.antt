-- ===== src/Rest/Pagination/Pages.antt =====
-- `listEnvelope` without overflow: the page that it returns, and what the pages make together.
use Prim.Native.Nat.{min}
use native.Mathlib.Nat.{div-le_self, div-mul-le_self, lt-div-mul-add}
use native.Mathlib.Decide.{dec_le}
use app_gocms.Prelude.{
  ℕ, zero, suc, ◌+◌, ◌-◌, ◌*◌, ◌/◌, ◌^◌, ◌≤◌, ◌<◌, pos, pos_part, add64, sub64, div64, ltb_ℤ, ◌≡◌,
  refl, sym, ap, ◌∙◌, true, Option, none, some, List, [], ◌∷◌, ◌++◌, arith, length, take, drop,
  length-drop, drop_all, take_all, take-append-drop, le→leb, if◌then◌else◌,
}
use app_gocms.Prelude.Arith.{sub64_one, mul64_fits, add64_fits, div64_fits}
use app_gocms.Rest.Pagination.{ListEnvelope, at_most, slice, list_envelope}

-- The number of pages of `m + 1` items that hold `total` items.
abbrev pub page_count : ℕ → ℕ → ℕ
page_count total m = (total + m) / suc m

-- The envelope of page `p + 1`, with `m + 1` items on a page.
abbrev pub page_of {ℓ} : {A : Type ℓ} → List A → ℕ → ℕ → ListEnvelope A
page_of items p m = record {
  items = take (suc m) (drop (p * suc m) items);
  pagination = record {
    page = pos (suc p);
    per_page = pos (suc m);
    total = pos (length items);
    total_pages = pos (page_count (length items) m);
  };
}

pub at_most_pos : (t n : ℕ) → at_most (pos t) (pos n) ≡ pos (min t n)
unfolding at_most
at_most_pos t n = ground arith

slice_fits {ℓ} :
    {A : Type ℓ} (items : List A) (a b : ℕ)
    → a ≤ b
    → b ≤ length items
    → slice items (pos a) (pos b) ≡ some (take (b - a) (drop a items))
unfolding slice
slice_fits items a b h k = rw (le→leb a b h, le→leb b (length items) k)

take-nil {ℓ} : {A : Type ℓ} (n : ℕ) → take {A = A} n [] ≡ []
take-nil zero = refl
take-nil (suc n) = refl

-- A window that is cut at the end of the list shows what the whole window shows.
take_clipped {ℓ} :
    {A : Type ℓ} (items : List A) (first m : ℕ)
    → take
        (min (length items) (min (length items) first + m) - min (length items) first)
        (drop (min (length items) first) items)
      ≡ take m (drop first items)
take_clipped items first m = elim (dec_le first (length items)) [
  | yes h ↦
      let e : min (length items) first ≡ first = omega arith in
      rw e (elim (dec_le (first + m) (length items)) [
        | yes k ↦ rw (let d : min (length items) (first + m) - first ≡ m = omega arith in d)
        | no k ↦
            take_all _ (drop first items) (omega (arith, length-drop first items))
            ∙ sym (take_all m (drop first items) (omega (arith, length-drop first items)))
      ])
  | no h ↦ rw (
    drop_all first items (omega arith),
    drop_all (min (length items) first) items (omega arith),
    take-nil,
    take-nil,
  )
]

total_pages_fits :
    (total m : ℕ)
    → total + suc m < 2 ^ 63
    → (if ltb_ℤ (pos 0) (pos total)
        then div64 (sub64 (add64 (pos total) (pos (suc m))) (pos 1)) (pos (suc m))
        else pos 0)
      ≡ pos (page_count total m)
total_pages_fits zero m h = ap pos (grind arith)
total_pages_fits (suc n) m h =
    rw
      (
        (let e : ltb_ℤ (pos 0) (pos (suc n)) ≡ true = ground arith in e),
        add64_fits (suc n) (suc m) h,
        (let e : suc n + suc m ≡ suc (suc n + m) = omega arith in e),
        sub64_one (suc n + m) (omega arith),
      )
      (div64_fits (suc n + m) m (omega arith))

-- Without overflow, page `p + 1` of `m + 1` items on a page holds the items from `p * (m + 1)` on,
-- at most `m + 1` of them, and the number of pages is rounded up.
pub list_envelope-page_of {ℓ} :
    {A : Type ℓ} (items : List A) (p m : ℕ)
    → suc p < 2 ^ 63
    → p * suc m < 2 ^ 63
    → length items + suc m < 2 ^ 63
    → list_envelope items (pos (suc p)) (pos (suc m)) ≡ some (page_of items p m)
unfolding list_envelope
list_envelope-page_of items p m hp hf hl = rw (
  total_pages_fits (length items) m hl,
  sub64_one p hp,
  mul64_fits p (suc m) hf,
  at_most_pos (length items) (p * suc m),
  add64_fits (min (length items) (p * suc m)) (suc m) (omega arith),
  at_most_pos (length items) (min (length items) (p * suc m) + suc m),
  slice_fits items (min (length items) (p * suc m))
      (min (length items) (min (length items) (p * suc m) + suc m)) (omega arith) (omega arith),
  take_clipped items (p * suc m) (suc m),
)

-- What is shown of a request that does not panic.
abbrev pub shown {ℓ} : {A : Type ℓ} → Option (ListEnvelope A) → List A
shown none = []
shown (some e) = e.items

-- The items of the pages from `p + 1` on, `n` of them, one request after the other.
pub walk {ℓ} : {A : Type ℓ} → List A → ℕ → ℕ → ℕ → List A
walk items m p zero = []
walk items m p (suc n) =
    shown (list_envelope items (pos (suc p)) (pos (suc m))) ++ walk items m (suc p) n

drop-nil {ℓ} : {A : Type ℓ} (n : ℕ) → drop {A = A} n [] ≡ []
drop-nil zero = refl
drop-nil (suc n) = refl

drop-drop {ℓ} : {A : Type ℓ} (a b : ℕ) (xs : List A) → drop a (drop b xs) ≡ drop (b + a) xs
drop-drop a zero xs = rw (let e : zero + a ≡ a = omega arith in e)
drop-drop a (suc b) [] = rw (drop-nil a, drop-nil (suc b + a))
drop-drop a (suc b) (x ∷ xs) =
    rw (let e : suc b + a ≡ suc (b + a) = omega arith in e) (drop-drop a b xs)

walk-drop {ℓ} :
    {A : Type ℓ} (items : List A) (m p n : ℕ)
    → length items + suc m < 2 ^ 63
    → suc (p + n) < 2 ^ 63
    → (p + n) * suc m < 2 ^ 63
    → length items ≤ (p + n) * suc m
    → walk items m p n ≡ drop (p * suc m) items
unfolding walk
walk-drop items m p zero hl hp hf all = sym (drop_all (p * suc m) items (omega arith))
walk-drop items m p (suc n) hl hp hf all =
    let e : suc p + n ≡ p + suc n = omega arith in
    let f : p * suc m + suc m ≡ suc p * suc m = omega arith in
    rw
      (
        list_envelope-page_of items p m (omega arith) (grind arith) hl,
        walk-drop items m (suc p) n hl (rw e hp) (rw e hf) (rw e all),
        ← f,
        ← drop-drop (suc m) (p * suc m) items,
      )
      (take-append-drop (suc m) (drop (p * suc m) items))

page_count_covers : (total m : ℕ) → total ≤ page_count total m * suc m
page_count_covers total m = omega (arith, lt-div-mul-add {a = total + m} {b = suc m} (omega arith))

page_count_fits : (total m : ℕ) → page_count total m * suc m ≤ total + m
page_count_fits total m = div-mul-le_self (total + m) (suc m)

walk_counted {ℓ} :
    {A : Type ℓ} (items : List A) (m : ℕ)
    → length items + suc m < 2 ^ 63
    → walk items m 0 (page_count (length items) m) ≡ items
walk_counted items m h =
    let n : ℕ = page_count (length items) m in
    let e : 0 + n ≡ n = omega arith in
    let f : 0 * suc m ≡ 0 = omega arith in
    let fits : n * suc m ≤ length items + m = page_count_fits (length items) m in
    let few : n ≤ length items + m = div-le_self (length items + m) (suc m) in
    walk-drop items m 0 n h (omega arith) (rw e (omega arith))
      (rw e (page_count_covers (length items) m))
    ∙ rw f

-- The number of pages that an answer tells.
abbrev pub told {ℓ} : {A : Type ℓ} → Option (ListEnvelope A) → ℕ
told none = 0
told (some e) = pos_part e.pagination.total_pages

first_told {ℓ} :
    {A : Type ℓ} (items : List A) (m : ℕ)
    → length items + suc m < 2 ^ 63
    → told (list_envelope items (pos 1) (pos (suc m))) ≡ page_count (length items) m
first_told items m h = rw (list_envelope-page_of items 0 m (omega arith) (omega arith) h) refl

-- Without overflow, the pages from the first to as many as the answer with the first one tells in
-- `total_pages`, read one after the other, hold each item once and in its order.
pub walk_all {ℓ} :
    {A : Type ℓ} (items : List A) (m : ℕ)
    → length items + suc m < 2 ^ 63
    → walk items m 0 (told (list_envelope items (pos 1) (pos (suc m)))) ≡ items
walk_all items m h = rw (first_told items m h) (walk_counted items m h)
