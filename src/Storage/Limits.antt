-- ===== src/Storage/Limits.antt =====
-- Lists of records, of which no page is asked for: the first fifty.
use Prim.Native.Nat.{min}
use app_gocms.Prelude.{
  ℕ, ◌-◌, ◌≡◌, sym, ap, ◌∙◌, pos, add64, sub64, mul64, Option, none, some, List, arith, length,
  take, leb, le→leb, take_all, Bool-cases, inl, inr,
}
use app_gocms.Domain.{Fields}
use app_gocms.Rest.Pagination.{slice, at_most}
use app_gocms.Storage.{PageResult, page_of_records, normalize_pagination}

start_zero : (n : ℕ) → at_most (pos n) (mul64 (sub64 (pos 1) (pos 1)) (pos 50)) ≡ pos 0
unfolding at_most mul64 sub64
start_zero n = ground arith

stop_fifty : (n : ℕ) → at_most (pos n) (add64 (pos 0) (pos 50)) ≡ pos (min n 50)
unfolding at_most add64
stop_fifty n = ground arith

take-min : (k : ℕ) (xs : List Fields) → take (min (length xs) k - 0) xs ≡ take k xs
take-min k xs = elim (Bool-cases (leb (length xs) k)) [
  | inl e ↦
      take_all (min (length xs) k - 0) xs (ground (arith, e))
      ∙ sym (take_all k xs (ground (arith, e)))
  | inr e ↦ (let same : min (length xs) k - 0 ≡ k = ground (arith, e) in ap (λ n. take n xs) same)
]

slice_fifty :
    (records : List Fields)
    → slice records (pos 0) (pos (min (length records) 50)) ≡ some (take 50 records)
unfolding slice
slice_fifty records =
    rw
      (
        le→leb 0 (min (length records) 50) (omega arith),
        le→leb (min (length records) 50) (length records) (omega arith),
      )
      (ap some (take-min 50 records))

-- Where no page is asked for, the first fifty of all the records are listed, however many there
-- are; the total counts them all.
first_fifty :
    (records : List Fields)
    → page_of_records records (normalize_pagination (pos 0) (pos 0))
      ≡ some (record {
        records = take 50 records;
        page = pos 1;
        per_page = pos 50;
        total_items = length records;
      })
unfolding page_of_records normalize_pagination
first_fifty records =
    let total = length records in
    ap as_page (
      ap (λ start. slice records start (at_most (pos total) (add64 start (pos 50))))
        (start_zero total)
      ∙ ap (slice records (pos 0)) (stop_fifty total)
      ∙ slice_fifty records)
  where
    as_page : Option (List Fields) → Option PageResult
    as_page none = none
    as_page (some items) =
        some (record {
          records = items;
          page = pos 1;
          per_page = pos 50;
          total_items = length records;
        })
