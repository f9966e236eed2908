-- ===== src/Adapters/Entries.antt =====
-- The entries of a workspace: which row a look-up by an id shows, and what a save does to the rows.
use app_gocms.Prelude.{
  ◌≡◌, ◌≢◌, ◌⊎◌, refl, sym, ap, ◌∙◌, inl, inr, Option, none, some, [], ◌∷◌, Bool-cases, Result, ok,
  err, Error, Exec, pure, arith,
}
use app_gocms.Text.{Text, codes, ◌==◌}
use app_gocms.Text.Laws.{==_iff}
use app_gocms.Domain.{Entry, kind_post, kind_page}
use app_gocms.Sql.{Engine, StatementLaws}
use app_gocms.Storage.{row_key, select_row, Json, table_for_record_type}
use app_gocms.Storage.Rows.{RowLaws}
use app_gocms.Storage.Repositories.{record_repository, repositories}
use app_gocms.Adapters.{
  Codec, Codecs, Source, put, get, found_or, get_from, save, with_content_kind, content_repo,
}
use app_gocms.Adapters.Cells.{CodecLaws, from_row, get_cell, put_elsewhere, put_failed, put_here}

-- The entry in the first of two rows that holds one.
unfoldable pub chosen : Text → Result (Option Entry) → Option Entry → Option Entry
chosen kind (ok (some e)) other = some (with_content_kind e kind)
chosen kind (ok none) other = other
chosen kind (err e) other = other

found_or-chosen :
    {S : Type 0} (json : Json) (codec : Codec Entry) (kind : Text) (others : Exec S (Option Entry))
    (r : Result (Option Entry)) (s : S) (o : Option Entry)
    → others s ≡ (ok o, s)
    → found_or json codec kind others r s ≡ (ok (chosen kind r o), s)
unfolding found_or chosen
found_or-chosen json codec kind others (ok (some e)) s o h = refl
found_or-chosen json codec kind others (ok none) s o h = h
found_or-chosen json codec kind others (err e) s o h = h

module _ {DB : Type 0} (engine : Engine DB) (json : Json) (workspace : Text)
    (codec : Codec Entry) where
  unfoldable pub post_row : DB → Text → Result (Option Entry)
  post_row s id =
      from_row engine json workspace codec (codes "post") id
        (select_row engine (codes "posts") workspace id s).0

  unfoldable pub page_row : DB → Text → Result (Option Entry)
  page_row s id =
      from_row engine json workspace codec (codes "page") id
        (select_row engine (codes "pages") workspace id s).0

  -- The entry that is read by an id.
  unfoldable pub entry_at : DB → Text → Option Entry
  unfolding post_row page_row chosen
  entry_at s id = chosen kind_post (post_row s id) (chosen kind_page (page_row s id) none)

  -- No row of the posts holds an entry of another kind.
  abbrev pub PostsInOrder : DB → Type 0
  PostsInOrder s =
      (j : Text) (e : Entry)
      → post_row s j ≡ ok (some e)
      → (with_content_kind e kind_post).kind ≡ kind_post

posts_known : table_for_record_type (codes "post") ≡ ok (codes "posts")
unfolding table_for_record_type ◌==◌
posts_known = refl

pages_known : table_for_record_type (codes "page") ≡ ok (codes "pages")
unfolding table_for_record_type ◌==◌
pages_known = refl

posts-ne-pages : ◌≢◌ {A = Text} (codes "posts") (codes "pages")
posts-ne-pages h = absurd (ground arith)

module _ {DB : Type 0} (engine : Engine DB) (json : Json) (workspace : Text)
    (statements : StatementLaws engine) where
  -- A look-up leaves the rows alone.
  pub get_still :
      {A : Type 0} (codec : Codec A) (record_type table id : Text) (s : DB)
      → table_for_record_type record_type ≡ ok table
      → get json codec (record_repository engine json workspace record_type) id s ≡ (
        from_row engine json workspace codec record_type id
            (select_row engine table workspace id s).0,
        s,
      )
  get_still codec record_type table id s known =
      get_cell engine json workspace codec record_type id table s known ∙ (λ i. (
        from_row engine json workspace codec record_type id
            (select_row engine table workspace id s).0,
        statements.select_keeps (codes "payload_json") table (row_key workspace id) s i,
      ))

  module _ (codec : Codec Entry) where
    abbrev posts : Source DB
    posts = (record_repository engine json workspace (codes "post"), kind_post)

    abbrev pages : Source DB
    pages = (record_repository engine json workspace (codes "page"), kind_page)

    from_pages :
        (id : Text) (s : DB)
        → get_from json codec id (pages ∷ []) s
          ≡ (ok (chosen kind_page (page_row engine json workspace codec s id) none), s)
    unfolding get_from page_row
    from_pages id s =
        ap (λ p. found_or json codec kind_page (pure none) p.0 p.1)
          (get_still codec (codes "page") (codes "pages") id s pages_known)
        ∙ found_or-chosen json codec kind_page (pure none) _ s none refl

    pub from_posts :
        (id : Text) (s : DB)
        → get_from json codec id (posts ∷ pages ∷ []) s
          ≡ (ok (entry_at engine json workspace codec s id), s)
    unfolding get_from post_row entry_at
    from_posts id s =
        ap (λ p. found_or json codec kind_post (get_from json codec id (pages ∷ [])) p.0 p.1)
          (get_still codec (codes "post") (codes "posts") id s posts_known)
        ∙ found_or-chosen json codec kind_post _ _ s _ (from_pages id s)

-- What a save does to the rows of the posts and of the pages.
module _ {DB : Type 0} (engine : Engine DB) (json : Json) (workspace : Text)
    (codec : Codec Entry) where
  abbrev pub SamePosts : DB → DB → Text → Type 0
  SamePosts s t j =
      post_row engine json workspace codec t j ≡ post_row engine json workspace codec s j

  abbrev pub SamePages : DB → DB → Text → Type 0
  SamePages s t j =
      page_row engine json workspace codec t j ≡ page_row engine json workspace codec s j

  pub data Effect (e : Entry) (s : DB) (r : Result (Unit {0}) × DB) : Type 0 where
    refused :
        (x : Error)
        → r.0 ≡ err x
        → ((j : Text) → SamePosts s r.1 j)
        → ((j : Text) → SamePages s r.1 j)
        → Effect e s r
    posted :
        r.0 ≡ ok tt
        → e.kind ≡ kind_post
        → post_row engine json workspace codec r.1 e.id ≡ ok (some e)
        → ((j : Text) → j ≢ e.id → SamePosts s r.1 j)
        → ((j : Text) → SamePages s r.1 j)
        → Effect e s r
    paged :
        r.0 ≡ ok tt
        → e.kind ≡ kind_page
        → page_row engine json workspace codec r.1 e.id ≡ ok (some e)
        → ((j : Text) → SamePosts s r.1 j)
        → ((j : Text) → j ≢ e.id → SamePages s r.1 j)
        → Effect e s r

  module _ (statements : StatementLaws engine) (rows : RowLaws engine json)
      (entries : CodecLaws json codec (λ (e : Entry). e.id)) (e : Entry) (s : DB) where
    -- Where a value stands: a row of a table, as a look-up of a record type reads it.
    abbrev row : Text → Text → DB → Text → Result (Option Entry)
    row record_type table t j =
        from_row engine json workspace codec record_type j (select_row engine table workspace j t).0

    module _ (record_type table : Text) (known : table_for_record_type record_type ≡ ok table) where
      abbrev write : Result (Unit {0}) × DB
      write = put json codec (record_repository engine json workspace record_type) e.id e s

      row_elsewhere :
          (other_type other_table j : Text)
          → (other_table ≢ table) ⊎ (j ≢ e.id)
          → row other_type other_table write.1 j ≡ row other_type other_table s j
      row_elsewhere other_type other_table j apart =
          ap (from_row engine json workspace codec other_type j) (
            put_elsewhere engine json workspace codec record_type table known e.id e s statements
              other_table j apart)

      row_failed :
          (x : Error)
          → write.0 ≡ err x
          → (other_type other_table j : Text)
          → row other_type other_table write.1 j ≡ row other_type other_table s j
      row_failed x failed other_type other_table j =
          ap (from_row engine json workspace codec other_type j) (
            put_failed engine json workspace codec record_type table known e.id e s statements x
              failed other_table j)

      row_here : write.0 ≡ ok tt → row record_type table write.1 e.id ≡ ok (some e)
      row_here =
          put_here engine json workspace codec record_type table known e.id e s rows
            (λ (x : Entry). x.id) entries refl

    post-Effect :
        e.kind ≡ kind_post
        → (o : Result (Unit {0})) → (write (codes "post") (codes "posts") posts_known).0 ≡ o
        → Effect e s (write (codes "post") (codes "posts") posts_known)
    unfolding post_row page_row
    post-Effect kind (err x) failed =
        refused x failed (row_failed _ _ posts_known x failed _ _)
          (row_failed _ _ posts_known x failed _ _)
    post-Effect kind (ok a) written =
        posted written kind (row_here _ _ posts_known written)
          (λ j other. row_elsewhere _ _ posts_known _ _ j (inr other))
          (λ j. row_elsewhere _ _ posts_known _ _ j (inl (λ h. posts-ne-pages (sym h))))

    page-Effect :
        e.kind ≡ kind_page
        → (o : Result (Unit {0})) → (write (codes "page") (codes "pages") pages_known).0 ≡ o
        → Effect e s (write (codes "page") (codes "pages") pages_known)
    unfolding post_row page_row
    page-Effect kind (err x) failed =
        refused x failed (row_failed _ _ pages_known x failed _ _)
          (row_failed _ _ pages_known x failed _ _)
    page-Effect kind (ok a) written =
        paged written kind (row_here _ _ pages_known written)
          (λ j. row_elsewhere _ _ pages_known _ _ j (inl posts-ne-pages))
          (λ j other. row_elsewhere _ _ pages_known _ _ j (inr other))

module _ {DB : Type 0} (engine : Engine DB) (json : Json) (workspace : Text) (codecs : Codecs)
    (statements : StatementLaws engine) (rows : RowLaws engine json)
    (entries : CodecLaws json codecs.entry (λ (e : Entry). e.id)) (e : Entry) (s : DB) where
  abbrev saved : Result (Unit {0}) × DB
  saved = save json codecs (repositories engine json workspace) e s

  pub save-Effect : Effect engine json workspace codecs.entry e s saved
  unfolding save content_repo
  save-Effect = elim (Bool-cases (e.kind == kind_post)) [
    | inl is_post ↦ rw is_post (
        post-Effect engine json workspace codecs.entry statements rows entries e s
          ((==_iff e.kind kind_post).0 is_post) _ refl)
    | inr not_post ↦ elim (Bool-cases (e.kind == kind_page)) [
      | inl is_page ↦
          rw (not_post, is_page)
            (page-Effect engine json workspace codecs.entry statements rows entries e s
              ((==_iff e.kind kind_page).0 is_page) _ refl)
      | inr not_page ↦ rw (not_post, not_page) (refused _ refl (λ j. refl) (λ j. refl))
    ]
  ]
