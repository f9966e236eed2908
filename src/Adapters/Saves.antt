-- ===== src/Adapters/Saves.antt =====
-- Entries through the adapters: the laws of the content service, of look-ups and saves.
use mathlib.Core.Path.{subst}
use mathlib.Core.Option.{some-injective}
use app_gocms.Prelude.{
  ◌≡◌, ◌⊎◌, refl, sym, ap, ◌∙◌, inl, inr, Option, some, Result, ok, err, Error, arith,
}
use app_gocms.Prelude.Errors.{ok-injective}
use app_gocms.Text.{Text, codes, ◌==◌}
use app_gocms.Domain.{Entry, kind_post}
use app_gocms.Env.{Env}
use app_gocms.Sql.{Engine, StatementLaws}
use app_gocms.Storage.{select_row, Json, table_for_record_type}
use app_gocms.Storage.Rows.{RowLaws}
use app_gocms.Adapters.Entries.{
  entry_at, post_row, page_row, from_posts, get_still, save-Effect, Effect, posted, paged, refused,
  PostsInOrder,
}
use app_gocms.Adapters.Views.{
  post_cases, own_or_other, posted_kind, post-ne-page, view_alike, view_post, view_posted,
  same_post, view_paged,
}
use app_gocms.Storage.Repositories.{repositories}
use app_gocms.Adapters.{Codecs, Host, get_entry, save, with_content_kind, application_repositories}
use app_gocms.Adapters.Cells.{CodecLaws, from_row}
use app_gocms.Content.Lifecycle.{EntryLaws}
use app_gocms.Content.Effects.{SaveLaws}

-- What the clock and the random bytes leave alone.
pub record HostLaws {DB : Type 0} (engine : Engine DB) (host : Host DB) : Type 0 where
  pub now_keeps :
      (table workspace id : Text) (s : DB)
      → (select_row engine table workspace id (host.now s).1).0
        ≡ (select_row engine table workspace id s).0

-- What the services are run with.
module _ {DB : Type 0} (engine : Engine DB) (json : Json) (workspace : Text) (codecs : Codecs)
    (host : Host DB) where
  abbrev pub workspace_env : Env DB
  workspace_env = application_repositories json codecs host (repositories engine json workspace)

module _ {DB : Type 0} (engine : Engine DB) (json : Json) (workspace : Text) (codecs : Codecs)
    (host : Host DB) (statements : StatementLaws engine) (clock : HostLaws engine host) where
  abbrev shown : DB → Text → Option Entry
  shown = entry_at engine json workspace codecs.entry

  now_rows :
      (s : DB) (j : Text)
      → (post_row engine json workspace codecs.entry (host.now s).1 j
          ≡ post_row engine json workspace codecs.entry s j)
        × (page_row engine json workspace codecs.entry (host.now s).1 j
            ≡ page_row engine json workspace codecs.entry s j)
  unfolding post_row page_row
  now_rows s j = (
    ap (from_row engine json workspace codecs.entry (codes "post") j)
        (clock.now_keeps (codes "posts") workspace j s),
    ap (from_row engine json workspace codecs.entry (codes "page") j)
        (clock.now_keeps (codes "pages") workspace j s),
  )

  types_known : table_for_record_type (codes "content_type") ≡ ok (codes "content_types")
  unfolding table_for_record_type ◌==◌
  types_known = refl

  module _ (rows : RowLaws engine json)
      (entries : CodecLaws json codecs.entry (λ (e : Entry). e.id)) where
    writes_of :
        (e : Entry) (s : DB) (r : Result (Unit {0}) × DB) (j : Text)
        → Effect engine json workspace codecs.entry e s r
        → (shown r.1 j ≡ shown s j) ⊎ ((e.id ≡ j) × (shown r.1 j ≡ some e))
    writes_of e s r j (refused x failed posts pages) =
        inl (view_alike engine json workspace codecs.entry s r.1 j (posts j) (pages j))
    writes_of e s r j (posted written kind found posts pages) = elim (own_or_other e j) [
      | inl own ↦ inr (
        own,
        subst (λ k. shown r.1 k ≡ some e) own
            (view_posted engine json workspace codecs.entry r.1 e kind found),
      )
      | inr other ↦
          inl (view_alike engine json workspace codecs.entry s r.1 j (posts j other) (pages j))
    ]
    writes_of e s r j (paged written kind found posts pages) = elim (own_or_other e j) [
      | inl own ↦ elim (post_cases (post_row engine json workspace codecs.entry r.1 e.id)) [
        | inl (o, before) ↦ inl (
            subst (λ k. shown r.1 k ≡ shown s k) own
              (same_post engine json workspace codecs.entry s r.1 e.id o (posts e.id) before))
        | inr free ↦ inr (
          own,
          subst (λ k. shown r.1 k ≡ some e) own
              (view_paged engine json workspace codecs.entry r.1 e kind found free),
        )
      ]
      | inr other ↦
          inl (view_alike engine json workspace codecs.entry s r.1 j (posts j) (pages j other))
    ]

    pub entry_laws : EntryLaws (workspace_env engine json workspace codecs host) shown
    unfolding application_repositories get_entry
    entry_laws = record {
      get_reads = λ id s. from_posts engine json workspace statements codecs.entry id s;
      types_keep = λ kind s j.
          ap (λ p. shown p.1 j)
            (get_still engine json workspace statements codecs.content_type (codes "content_type")
              (codes "content_types") kind s types_known);
      now_keeps = λ s j.
          view_alike engine json workspace codecs.entry s (host.now s).1 j (now_rows s j).0
            (now_rows s j).1;
      save_writes = λ e s j.
          writes_of e s (save json codecs (repositories engine json workspace) e s) j
            (save-Effect engine json workspace codecs statements rows entries e s);
    }

    abbrev InOrder : DB → Type 0
    InOrder = PostsInOrder engine json workspace codecs.entry

    saved_of :
        (e : Entry) (s : DB) (r : Result (Unit {0}) × DB)
        → Effect engine json workspace codecs.entry e s r
        → InOrder s
        → ((o : Entry) → shown s e.id ≡ some o → o.kind ≡ e.kind)
        → r.0 ≡ ok tt
        → shown r.1 e.id ≡ some e
    saved_of e s r (refused x failed posts pages) order kinds done =
        absurd (ground (arith, sym failed ∙ done))
    saved_of e s r (posted written kind found posts pages) order kinds done =
        view_posted engine json workspace codecs.entry r.1 e kind found
    saved_of e s r (paged written kind found posts pages) order kinds done =
        elim (post_cases (post_row engine json workspace codecs.entry r.1 e.id)) [
          | inl (o, before) ↦
              let there = sym (posts e.id) ∙ before in
              absurd (
                post-ne-page (
                  sym (order e.id o there)
                  ∙ kinds (with_content_kind o kind_post)
                      (view_post engine json workspace codecs.entry s e.id o there)
                  ∙ kind))
          | inr free ↦ view_paged engine json workspace codecs.entry r.1 e kind found free
        ]

    ordered_of :
        (e : Entry) (s : DB) (r : Result (Unit {0}) × DB)
        → Effect engine json workspace codecs.entry e s r
        → InOrder s
        → InOrder r.1
    ordered_of e s r (refused x failed posts pages) order j y found =
        order j y (sym (posts j) ∙ found)
    ordered_of e s r (paged written kind here posts pages) order j y found =
        order j y (sym (posts j) ∙ found)
    ordered_of e s r (posted written kind here posts pages) order j y found =
        elim (own_or_other e j) [
          | inl own ↦
              let same : y ≡ e = some-injective y e (
                ok-injective (some y) (some e) (
                  sym found
                  ∙ ap (post_row engine json workspace codecs.entry r.1) (sym own)
                  ∙ here)) in
              ap (λ (x : Entry). (with_content_kind x kind_post).kind) same ∙ posted_kind e kind
          | inr other ↦ order j y (sym (posts j other) ∙ found)
        ]

    refused_of :
        (e : Entry) (s : DB) (r : Result (Unit {0}) × DB) (x : Error)
        → Effect engine json workspace codecs.entry e s r
        → r.0 ≡ err x
        → (j : Text) → shown r.1 j ≡ shown s j
    refused_of e s r x (refused y failed posts pages) h j =
        view_alike engine json workspace codecs.entry s r.1 j (posts j) (pages j)
    refused_of e s r x (posted written kind found posts pages) h j =
        absurd (ground (arith, sym written ∙ h))
    refused_of e s r x (paged written kind found posts pages) h j =
        absurd (ground (arith, sym written ∙ h))

    pub save_laws : SaveLaws (workspace_env engine json workspace codecs host) shown InOrder
    unfolding application_repositories
    save_laws = record {
      save_ok = λ e s order kinds done.
          saved_of e s (save json codecs (repositories engine json workspace) e s)
            (save-Effect engine json workspace codecs statements rows entries e s) order kinds done;
      save_err = λ e s {x} failed.
          refused_of e s (save json codecs (repositories engine json workspace) e s) x
            (save-Effect engine json workspace codecs statements rows entries e s) failed;
      save-InOrder = λ e s.
          ordered_of e s (save json codecs (repositories engine json workspace) e s)
            (save-Effect engine json workspace codecs statements rows entries e s);
      types-InOrder = λ kind s order.
          subst InOrder
            (ap (λ p. p.1)
              (sym (
                get_still engine json workspace statements codecs.content_type
                  (codes "content_type") (codes "content_types") kind s types_known)))
            order;
      now-InOrder = λ s order j e found. order j e (sym (now_rows s j).0 ∙ found);
    }
