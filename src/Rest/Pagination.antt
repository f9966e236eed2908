-- ===== src/Rest/Pagination.antt =====
-- internal/delivery/rest/routes.go: `pagination`, `parsePositive` and `listEnvelope`, with the
-- envelopes of pkg/module/codex/routes.go. An `int` has 64 bits and wraps around.
pub mod Pages
pub mod Overflow
use app_gocms.Prelude.{
  ℕ, zero, suc, ◌+◌, ◌-◌, ◌*◌, ◌^◌, ℤ, pos, negsuc, pos_part, leb_ℤ, ltb_ℤ, add64, sub64, mul64,
  div64, max_int64, Bool, true, false, ◌&&◌, ◌||◌, Option, none, some, List, [], ◌∷◌, String,
  Result, ok, err, eqb, leb, length, take, drop, if◌then◌else◌,
}
use app_gocms.Text.{Text, codes, is_empty}

pub record Pagination : Type 0 where
  pub page : ℤ
  pub per_page : ℤ
  pub total : ℤ
  pub total_pages : ℤ

pub record ListEnvelope {ℓ} (A : Type ℓ) : Type ℓ where
  pub items : List A
  pub pagination : Pagination

-- `strconv.Atoi`.
unfoldable pub digits : ℕ → Text → Option ℕ
digits n [] = some n
digits n (c ∷ s) = if leb b'0' c && leb c b'9' then digits (n * 10 + (c - b'0')) s else none

unfoldable pub number_of : Text → Option ℕ
unfolding digits
number_of [] = none
number_of (c ∷ s) = digits 0 (c ∷ s)

abbrev in_range : ℕ → Option ℕ → Option ℕ
in_range limit none = none
in_range limit (some n) = if leb n limit then some n else none

abbrev positive : Option ℕ → Option ℤ
positive none = none
positive (some n) = some (pos n)

abbrev negative : Option ℕ → Option ℤ
negative none = none
negative (some zero) = some (pos 0)
negative (some (suc n)) = some (negsuc n)

unfoldable pub atoi : Text → Option ℤ
unfolding number_of
atoi [] = none
atoi (c ∷ s) =
    if eqb c b'-'
    then negative (in_range (2 ^ 63) (number_of s))
    else if eqb c b'+'
    then positive (in_range max_int64 (number_of s))
    else positive (in_range max_int64 (number_of (c ∷ s)))

abbrev invalid_integer : Text
invalid_integer = codes "invalid positive integer"

unfoldable pub accept : Option ℤ → Result ℤ
accept none = err invalid_integer
accept (some parsed) = if leb_ℤ parsed (pos 0) then err invalid_integer else ok parsed

unfoldable pub parse_positive : Text → ℤ → Result ℤ
unfolding accept
parse_positive value fallback = if is_empty value then ok fallback else accept (atoi value)

unfoldable pub with_per_page : ℤ → Result ℤ → Result (ℤ × ℤ)
with_per_page page (err e) = err (codes "invalid per_page")
with_per_page page (ok per_page) = ok (page, per_page)

unfoldable pub with_page : Result ℤ → Text → Result (ℤ × ℤ)
unfolding with_per_page
with_page (err e) per_page = err (codes "invalid page")
with_page (ok page) per_page = with_per_page page (parse_positive per_page (pos 20))

-- The arguments are the values of `page` and `per_page` in the URL's query, empty if absent.
unfoldable pub pagination : Text → Text → Result (ℤ × ℤ)
unfolding with_page
pagination page per_page = with_page (parse_positive page (pos 1)) per_page

-- `if n > total { n = total }`
unfoldable pub at_most : ℤ → ℤ → ℤ
at_most total n = if ltb_ℤ total n then total else n

-- `items[start:end]`; `none` is the panic on bounds that do not fit.
module _ {ℓ} {A : Type ℓ} where
  unfoldable pub slice : List A → ℤ → ℤ → Option (List A)
  slice items (pos start) (pos stop) =
      if leb start stop && leb stop (length items)
      then some (take (stop - start) (drop start items))
      else none
  slice items _ _ = none

  abbrev envelope : Pagination → Option (List A) → Option (ListEnvelope A)
  envelope p none = none
  envelope p (some items) = some (record { items = items; pagination = p })

  -- `none` is a panic.
  unfoldable pub list_envelope : List A → ℤ → ℤ → Option (ListEnvelope A)
  unfolding slice at_most
  list_envelope items page per_page =
      let total = pos (length items) in
      let start = at_most total (mul64 (sub64 page (pos 1)) per_page) in
      let stop = at_most total (add64 start per_page) in
      let total_pages =
        if ltb_ℤ (pos 0) total
        then div64 (sub64 (add64 total per_page) (pos 1)) per_page
        else pos 0 in
      envelope
        (record { page = page; per_page = per_page; total = total; total_pages = total_pages })
        (slice items start stop)
