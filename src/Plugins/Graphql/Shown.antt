-- ===== src/Plugins/Graphql/Shown.antt =====
-- What the GraphQL plugin shows.
use app_gocms.Prelude.{
  ◌≡◌, ◌≢◌, inl, inr, true, Bool-cases, List, [], ◌∷◌, All, Result, ok, err, Exec, ◌>>◌, arith,
}
use app_gocms.Prelude.Errors.{bind_ok}
use mathlib.Core.Path.{subst}
use app_gocms.Text.{Text, codes, contains, to_lower}
use app_gocms.Text.Laws.{==_iff}
use app_gocms.Env.{Env}
use app_gocms.Services.ContentTypes
use app_gocms.Storage.Repositories.{Repositories}
use app_gocms.Storage.Transactions.{Transactions, within_tx}
use app_gocms.Storage.Transactions
use app_gocms.Plugins.Graphql.{
  GraphRequest, Payload, data_of, query_of, is_shown, public_records, queried, replied, handle,
  records_of, public_of,
}

replied_ok :
    {R X : Type 0} (o : Result (Payload R) × X) (payload : Payload R)
    → (replied o).0 ≡ record { status = 200; payload = payload }
    → o.0 ≡ ok payload
unfolding replied
replied_ok (ok p, s) payload h = ground (arith, h)
replied_ok (err e, s) payload h = ground (arith, h)

module _ {R : Type 0} (field : R → Text → Text) where
  -- A record that the plugin does not hide.
  pub record IsShown (r : R) : Type 0 where
    pub no_draft : field r (codes "status") ≢ codes "draft"
    pub not_private : field r (codes "visibility") ≢ codes "private"

  is_shown-IsShown : (r : R) → is_shown field r ≡ true → IsShown r
  unfolding is_shown
  is_shown-IsShown r h = record {
    no_draft = λ d. ground (arith, ==_iff (field r (codes "status")) (codes "draft"));
    not_private = λ p. ground (arith, ==_iff (field r (codes "visibility")) (codes "private"));
  }

  public_records-IsShown : (items : List R) → All IsShown (public_records field items)
  unfolding public_records
  public_records-IsShown [] = tt
  public_records-IsShown (r ∷ items) = elim (Bool-cases (is_shown field r)) [
    | inl e ↦ rw e (is_shown-IsShown r e, public_records-IsShown items)
    | inr e ↦ rw e (public_records-IsShown items)
  ]

  module _ {S : Type 0} (repos : Repositories S R) where
    public_of-IsShown :
        (at name : Text) (list : Exec S (List R)) (s : S) (records : List R)
        → (public_of field repos at list s).0 ≡ ok (data_of name records)
        → All IsShown records
    unfolding public_of
    public_of-IsShown at name list s records h =
        let (all, listed, made) = bind_ok list _ s (data_of name records) h in
        let same : public_records field all ≡ records = ground (arith, made) in
        subst (All IsShown) same (public_records-IsShown all)

    records_of_name :
        (at name : Text) (list : Exec S (List R)) (s : S) (records : List R)
        → (records_of field repos at list s).0 ≡ ok (data_of name records)
        → name ≡ at
    unfolding records_of
    records_of_name at name list s records h =
        let (all, listed, made) = bind_ok list _ s (data_of name records) h in ground (arith, made)

    queried-IsShown :
        (query name : Text) (s : S) (records : List R)
        → (queried field repos query s).0 ≡ ok (data_of name records)
        → name ≢ codes "settings"
        → name ≢ codes "menus"
        → All IsShown records
    unfolding queried
    queried-IsShown query name s records h n m =
        elim (Bool-cases (contains query (codes "settings"))) [
          | inl e ↦
              let got = rw e at h in
              absurd (n (records_of_name (codes "settings") name repos.settings.list s records got))
          | inr e ↦ elim (Bool-cases (contains query (codes "menus"))) [
            | inl f ↦
                let got = rw (e, f) at h in
                absurd (m (records_of_name (codes "menus") name repos.menus.list s records got))
            | inr f ↦ elim (Bool-cases (contains query (codes "pages"))) [
              | inl g ↦
                  let got = rw (e, f, g) at h in
                  public_of-IsShown (codes "pages") name repos.pages.list s records got
              | inr g ↦
                  let got = rw (e, f, g) at h in
                  public_of-IsShown (codes "posts") name repos.posts.list s records got
            ]
          ]
        ]

  module _ {S : Type 0} (repos : Repositories S R) (tx : Transactions S) (env : Env S) where
    -- The records that are answered under another name than those of the settings and the menus
    -- are neither drafts nor private.
    pub handle-IsShown :
        (r : GraphRequest) (s : S) (name : Text) (records : List R)
        → (handle field repos tx env r s).0
          ≡ record { status = 200; payload = data_of name records }
        → name ≢ codes "settings"
        → name ≢ codes "menus"
        → All IsShown records
    unfolding handle
    handle-IsShown r s name records h n m =
        elim (Bool-cases (contains (to_lower (query_of r)) (codes "mutation"))) [
          | inl e ↦ let refused = rw e at h in ground (arith, refused)
          | inr e ↦
              let answered = rw e at h in
              let query = to_lower (query_of r) in
              let work = ContentTypes.install_built_ins env >> queried field repos query in
              let run = replied_ok (within_tx tx work s) (data_of name records) answered in
              let (begun, ran, done) =
                Transactions.committed tx work s (within_tx tx work s).1 (data_of name records)
                  (λ i. (run i, (within_tx tx work s).1)) in
              let later = (ContentTypes.install_built_ins env s).1 in
              let got : (queried field repos query later).0 ≡ ok (data_of name records) =
                ground arith in
              queried-IsShown repos query name later records got n m
        ]
