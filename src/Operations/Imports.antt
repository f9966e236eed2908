-- ===== src/Operations/Imports.antt =====
-- What an import of a snapshot leaves in the collections of records.
use app_gocms.Prelude.{
  ◌≡◌, ◌≢◌, refl, sym, ap, ◌∙◌, inl, inr, true, false, Bool-cases, eqb, List, [], ◌∷◌, map,
  if◌then◌else◌, Result, ok, err, Exec, arith,
}
use app_gocms.Prelude.Errors.{continue}
use mathlib.Core.Path.{subst}
use app_gocms.Text.{Text, ◌==◌, is_empty}
use app_gocms.Text.Laws.{==_iff}
use app_gocms.Storage.Repositories.{Repository, Repositories}
use app_gocms.Operations.Collections.{
  Collection, content_types, taxonomies, terms, authors, posts, pages, media, settings, menus, rank,
  rank-injective, all_collections, items_of, repo_of, PutLaws,
}
use app_gocms.Operations.{Snapshot, id_of, import_items, import_groups, import_snapshot}

-- What is seen of the last of the items with the id, or else what was there.
module _ {R V : Type 0} (field : R → Text → Text) (stored : R → V) where
  unfoldable pub last_with : Text → List R → V → V
  last_with id [] old = old
  last_with id (item ∷ items) old =
      last_with id items (if id_of field item == id then stored item else old)

-- Two calls in a row that succeed.
both_ok :
    {S A B : Type 0} (r : Result A) (n : Exec S B) (s s' : S) (b : B)
    → continue r (λ _. n) s ≡ (ok b, s')
    → (a : A) × (r ≡ ok a) × (n s ≡ (ok b, s'))
both_ok (ok a) n s s' b h = (a, refl, h)
both_ok (err e) n s s' b h = absurd (ground (arith, h))

-- A record without an id has not the id that is asked for.
empty-no_id : (x id : Text) → is_empty x ≡ true → id ≢ [] → (x == id) ≡ false
unfolding is_empty ◌==◌
empty-no_id [] [] h named = absurd (named refl)
empty-no_id [] (c ∷ id) h named = refl
empty-no_id (c ∷ x) id h named = absurd (ground arith)

module _ {S R V : Type 0} (field : R → Text → Text) (repos : Repositories S R) (stored : R → V)
    (view : Collection → S → Text → V) (laws : PutLaws field repos stored view) where
  put_seen :
      (c : Collection) (item : R) (id : Text) (s s' : S)
      → (repo_of repos c).put (id_of field item) item s ≡ (ok tt, s')
      → view c s' id ≡ (if id_of field item == id then stored item else view c s id)
  put_seen c item id s s' put = elim (Bool-cases (id_of field item == id)) [
    | inl e ↦
        let same = (==_iff (id_of field item) id).0 e in
        rw e (subst (λ x. view c s' x ≡ stored item) same (laws.here c item s s' put))
    | inr e ↦
        let differs : id ≢ id_of field item =
          λ h. ground (arith, e, ==_iff (id_of field item) id, sym h) in
        rw e (laws.other_id c id item s s' put differs)
  ]

  items_seen :
      (c : Collection) (items : List R) (id : Text) (s s' : S)
      → id ≢ []
      → import_items field (repo_of repos c) items s ≡ (ok tt, s')
      → view c s' id ≡ last_with field stored id items (view c s id)
  unfolding import_items last_with
  items_seen c [] id s s' named h = ap (λ x. view c x id) (sym (ap (λ x. x.1) h))
  items_seen c (item ∷ items) id s s' named h = elim (Bool-cases (is_empty (id_of field item))) [
    | inl e ↦
        let kept : (id_of field item == id) ≡ false = empty-no_id (id_of field item) id e named in
        rw kept (items_seen c items id s s' named (rw e at h))
    | inr e ↦
        let (done, put, rest) =
          both_ok ((repo_of repos c).put (id_of field item) item s).0 _ _ s' tt (rw e at h) in
        items_seen c items id _ s' named rest
        ∙ ap (last_with field stored id items) (
            put_seen c item id s _
              (λ i. (put i, ((repo_of repos c).put (id_of field item) item s).1)))
  ]

  items_elsewhere :
      (c d : Collection) (items : List R) (id : Text) (s s' : S)
      → c ≢ d
      → import_items field (repo_of repos c) items s ≡ (ok tt, s')
      → view d s' id ≡ view d s id
  unfolding import_items
  items_elsewhere c d [] id s s' apart h = ap (λ x. view d x id) (sym (ap (λ x. x.1) h))
  items_elsewhere c d (item ∷ items) id s s' apart h =
      elim (Bool-cases (is_empty (id_of field item))) [
        | inl e ↦ items_elsewhere c d items id s s' apart (rw e at h)
        | inr e ↦
            let (done, put, rest) =
              both_ok ((repo_of repos c).put (id_of field item) item s).0 _ _ s' tt (rw e at h) in
            items_elsewhere c d items id _ s' apart rest
            ∙ laws.elsewhere c d id item s _
                (λ i. (put i, ((repo_of repos c).put (id_of field item) item s).1)) apart
      ]

  -- What the collection of `c` shows under an id after the import of some collections.
  shown : Snapshot R → List Collection → Collection → Text → V → V
  unfolding last_with
  shown snapshot [] c id old = old
  shown snapshot (d ∷ ds) c id old =
      shown snapshot ds c id
        (if eqb (rank d) (rank c) then last_with field stored id (items_of snapshot d) old else old)

  abbrev groups : Snapshot R → List Collection → List (Repository S R × List R)
  groups snapshot cs = map (λ d. (repo_of repos d, items_of snapshot d)) cs

  group_seen :
      (snapshot : Snapshot R) (d c : Collection) (id : Text) (s s' : S)
      → id ≢ []
      → import_items field (repo_of repos d) (items_of snapshot d) s ≡ (ok tt, s')
      → view c s' id ≡ (
          if eqb (rank d) (rank c)
          then last_with field stored id (items_of snapshot d) (view c s id)
          else view c s id)
  group_seen snapshot d c id s s' named h = elim (Bool-cases (eqb (rank d) (rank c))) [
    | inl e ↦
        let same : d ≡ c = rank-injective d c (ground (arith, e)) in
        rw e (
          subst (λ x. view x s' id ≡ last_with field stored id (items_of snapshot d) (view x s id))
            same (items_seen d (items_of snapshot d) id s s' named h))
    | inr e ↦
        let apart : d ≢ c = λ same. ground (arith, e, ap rank same) in
        rw e (items_elsewhere d c (items_of snapshot d) id s s' apart h)
  ]

  groups_seen :
      (snapshot : Snapshot R) (cs : List Collection) (c : Collection) (id : Text) (s s' : S)
      → id ≢ []
      → import_groups field (groups snapshot cs) s ≡ (ok tt, s')
      → view c s' id ≡ shown snapshot cs c id (view c s id)
  unfolding import_groups shown
  groups_seen snapshot [] c id s s' named h = ap (λ x. view c x id) (sym (ap (λ x. x.1) h))
  groups_seen snapshot (d ∷ ds) c id s s' named h =
      let t = (import_items field (repo_of repos d) (items_of snapshot d) s).1 in
      let (done, first, rest) =
        both_ok (import_items field (repo_of repos d) (items_of snapshot d) s).0 _ t s' tt h in
      groups_seen snapshot ds c id t s' named rest
      ∙ ap (shown snapshot ds c id) (group_seen snapshot d c id s t named (λ i. (first i, t)))

  -- Each collection is imported once.
  shown_once :
      (snapshot : Snapshot R) (c : Collection) (id : Text) (old : V)
      → shown snapshot all_collections c id old
        ≡ last_with field stored id (items_of snapshot c) old
  unfolding shown
  shown_once snapshot content_types id old = refl
  shown_once snapshot taxonomies id old = refl
  shown_once snapshot terms id old = refl
  shown_once snapshot authors id old = refl
  shown_once snapshot posts id old = refl
  shown_once snapshot pages id old = refl
  shown_once snapshot media id old = refl
  shown_once snapshot settings id old = refl
  shown_once snapshot menus id old = refl

  -- After an import, over repositories that keep to the laws.
  pub import_snapshot_exact :
      (snapshot : Snapshot R) (c : Collection) (id : Text) (s s' : S)
      → id ≢ []
      → import_snapshot field repos snapshot s ≡ (ok tt, s')
      → view c s' id ≡ last_with field stored id (items_of snapshot c) (view c s id)
  unfolding import_snapshot
  import_snapshot_exact snapshot c id s s' named h =
      groups_seen snapshot all_collections c id s s' named h
      ∙ shown_once snapshot c id (view c s id)
