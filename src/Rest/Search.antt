-- ===== src/Rest/Search.antt =====
-- The search filters the page that `contentList` returns, and then pages the outcome once more.
use app_gocms.Prelude.{
  ℕ, suc, ◌+◌, ◌*◌, ◌^◌, ◌≤◌, ◌<◌, pos, ◌≡◌, ◌∙◌, false, List, [], arith, length, take, drop,
  filter, length-filter, length-take, drop_all, if◌then◌else◌, ok,
}
use app_gocms.Text.{Text, is_empty, to_lower}
use app_gocms.Domain.{Entry}
use app_gocms.Env.{Env}
use app_gocms.Content
use app_gocms.Rest.Pagination.{ListEnvelope, list_envelope, pagination}
use app_gocms.Rest.Pagination.Pages.{page_of, list_envelope-page_of}
use app_gocms.Rest.Reply.{Request, respond, entries}
use app_gocms.Rest.Routes.{Authorizer, reading_ok}
use app_gocms.Rest.Content.{
  search as search_content, listed, show_page, filter_envelope, matches_query, list_reply,
}

-- The text that a search looks for.
abbrev pub query_of : Request → Text
query_of r = to_lower (if is_empty r.q then r.search else r.q)

-- The matching entries of page `p + 1`.
abbrev found_on : Text → List Entry → ℕ → ℕ → List Entry
found_on q items p m = filter (matches_query q) (take (suc m) (drop (p * suc m) items))

found_few : (q : Text) (items : List Entry) (p m : ℕ) → length (found_on q items p m) ≤ suc m
found_few q items p m = omega (
  arith,
  length-filter (matches_query q) (take (suc m) (drop (p * suc m) items)),
  length-take (suc m) (drop (p * suc m) items),
)

filter_later :
    (q : Text) (items : List Entry) (p m : ℕ)
    → is_empty q ≡ false
    → suc p < 2 ^ 63
    → p * suc m < 2 ^ 63
    → length items + suc m < 2 ^ 63
    → suc m + suc m < 2 ^ 63
    → filter_envelope q (list_envelope items (pos (suc p)) (pos (suc m)))
      ≡ respond 200 (entries (page_of (found_on q items p m) p m))
unfolding filter_envelope list_reply
filter_later q items p m asks hp hf hl hm = rw (
  list_envelope-page_of items p m hp hf hl,
  asks,
  list_envelope-page_of (found_on q items p m) p m hp hf (omega (arith, found_few q items p m)),
)

module _ {S : Type 0} (env : Env S) (authorize : Authorizer) (r : Request) where
  -- A search with a text to look for answers, on every page but the first, with no entry: whatever
  -- is stored and whatever matches, as long as the arithmetic of the pages does not overflow.
  pub search_later_page :
      (p m : ℕ) (s : S) (items : List Entry)
      → is_empty (query_of r) ≡ false
      → pagination r.page r.per_page ≡ ok (pos (suc (suc p)), pos (suc m))
      → (env.list (record { kind = []; status = r.status }) s).0 ≡ ok items
      → suc (suc p) < 2 ^ 63
      → suc p * suc m < 2 ^ 63
      → length items + suc m < 2 ^ 63
      → suc m + suc m < 2 ^ 63
      → (e : ListEnvelope Entry) × ((search_content env authorize r s).0 ≡ respond 200 (entries e))
        × (e.items ≡ [])
  unfolding search_content listed show_page Content.list
  search_later_page p m s items asks paged found hp hf hl hm = (
    page_of (found_on q items (suc p) m) (suc p) m,
    rw paged (
        reading_ok (env.list (record { kind = []; status = r.status }))
          (λ items. filter_envelope q (list_envelope items (pos (suc (suc p))) (pos (suc m)))) s
          items found
        ∙ filter_later q items (suc p) m asks hp hf hl hm),
    drop_all_take,
  )
    where
      q : Text
      q = query_of r

      drop_all_take : take (suc m) (drop (suc p * suc m) (found_on q items (suc p) m)) ≡ []
      drop_all_take = rw (
          drop_all (suc p * suc m) (found_on q items (suc p) m)
            (grind (arith, found_few q items (suc p) m)))
