-- ===== src/Rest/Visibility.antt =====
-- Which entries the reading routes show.
use app_gocms.Prelude.{
  false, ◌≡◌, refl, Bool, true, Option, none, some, List, [], ◌∷◌, arith, find, All, Result, ok,
  err,
}
use app_gocms.Text.{is_empty, Text, codes}
use app_gocms.Text.Laws.{==_iff, ==_refl}
use app_gocms.Domain.{Entry, Query, status_published, visibility_public}
use app_gocms.Env.{Env}
use app_gocms.Content
use app_gocms.Rest.Reply.{Request, Reply, respond, entry, not_found, server_error}
use app_gocms.Rest.Routes.{Authorizer, is_get, reading}
use app_gocms.Rest.Content.{content, is_at_slug, found_or}

-- What the routes rely on: a list holds only entries of the status that the query names, if it names
-- one.
pub record ListLaws {S : Type 0} (env : Env S) : Type 0 where
  pub status :
      (q : Query) (s : S) (items : List Entry)
      → is_empty q.status ≡ false
      → (env.list q s).0 ≡ ok items
      → All (λ (e : Entry). e.status ≡ q.status) items

-- The entry that a loop finds passes its test, and is in the list.
find-All :
    (p : Entry → Bool) (status : Text) (items : List Entry) (e : Entry)
    → All (λ (x : Entry). x.status ≡ status) items
    → find p items ≡ some e
    → (p e ≡ true) × (e.status ≡ status)
find-All p status [] e h found = cc
find-All p status (x ∷ xs) e (h, hs) found = ground (arith, find-All p status xs e hs)

is_at_slug_iff :
    (slug : Text) (e : Entry)
    → is_at_slug slug e ≡ true
    → (e.slug ≡ slug) × (e.visibility ≡ visibility_public)
is_at_slug_iff slug e h = ground (arith, ==_iff e.slug slug, ==_iff e.visibility visibility_public)

-- What an answer with an entry shows of the loop, and of the call before it.
found_entry :
    (message : Text) (o : Option Entry) (e : Entry)
    → found_or message o ≡ respond 200 (entry e)
    → o ≡ some e
unfolding not_found
found_entry message none e h = ground arith
found_entry message (some x) e h = ground arith

read_entry :
    {A : Type 0} (a : Result A) (f : A → Reply) (e : Entry)
    → (elim a as (λ _. Reply) [ ok x ↦ f x | err x ↦ server_error x ]) ≡ respond 200 (entry e)
    → (x : A) × (a ≡ ok x) × (f x ≡ respond 200 (entry e))
unfolding server_error
read_entry (ok x) f e h = (x, refl, h)
read_entry (err x) f e h = ground arith

module _ {S : Type 0} (env : Env S) (authorize : Authorizer) (r : Request) where
  -- Where a list holds only entries of the status that is asked for: an entry that a GET answers by
  -- its slug is published and public, and has that slug.
  pub by_slug_shown :
      (laws : ListLaws env) (kind slug : Text) (s : S) (e : Entry)
      → is_get r ≡ true
      → (content env authorize r (codes "by-slug" ∷ slug ∷ []) kind s).0 ≡ respond 200 (entry e)
      → (e.status ≡ status_published) × (e.visibility ≡ visibility_public) × (e.slug ≡ slug)
  unfolding content Content.list reading
  by_slug_shown laws kind slug s e get h =
      let shown = rw (==_refl (codes "by-slug"), get) at h in
      let (items, listed, picked) =
        read_entry (env.list (record { kind = kind; status = status_published }) s).0
          (λ items. found_or (codes "content not found") (find (is_at_slug slug) items)) e shown in
      let (passes, published) =
        find-All (is_at_slug slug) status_published items e
          (laws.status (record { kind = kind; status = status_published }) s items
            (unfold is_empty in refl) listed)
          (found_entry (codes "content not found") _ e picked) in
      let (same_slug, is_public) = is_at_slug_iff slug e passes in (published, is_public, same_slug)
