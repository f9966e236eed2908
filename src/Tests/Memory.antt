-- ===== src/Tests/Memory.antt =====
-- A storage in memory, to evaluate the operations on: entries, preview accesses and revisions, the
-- newest first, the registered content types, the settings, and a clock that goes on at every look.
use mathlib.Core.Path.{subst}
use app_gocms.Prelude.{
  false, ℕ, suc, ◌≡◌, refl, ◌⊎◌, inl, inr, Bool, ◌&&◌, ◌||◌, Option, none, some, List, [], ◌∷◌,
  find, filter, All, ok, Bool-cases,
}
use app_gocms.Prelude.Errors.{ok-injective}
use app_gocms.Prelude.{arith}
use app_gocms.Text.{Text, codes, ◌==◌, is_empty}
use app_gocms.Text.Laws.{==_iff, ==_refl}
use app_gocms.Domain.{Entry, Query, ContentType, Setting, Access, Revision}
use app_gocms.Env.{Env}
use app_gocms.Content.Lifecycle.{EntryLaws}
use app_gocms.Content.Effects.{SaveLaws}
use app_gocms.Services.Previews.{PreviewLaws}
use app_gocms.Services.Revisions.RoundTrip.{RevisionLaws}
use app_gocms.Rest.Authorization.{ReadOnly}
use app_gocms.Rest.Visibility.{ListLaws}

pub record Memory : Type 0 where
  pub entries : List Entry
  pub content_types : List ContentType
  pub settings : List Setting
  pub previews : List Access
  pub revisions : List Revision
  pub clock : ℕ

abbrev pub empty_memory : Memory
empty_memory = record {
  entries = [];
  content_types = [];
  settings = [];
  previews = [];
  revisions = [];
  clock = 100;
}

unfoldable pub entry_in : Memory → Text → Option Entry
entry_in s id = find (λ (e : Entry). e.id == id) s.entries

unfoldable pub access_in : Memory → Text → Option Access
access_in s token = find (λ (a : Access). a.token == token) s.previews

unfoldable pub revision_in : Memory → Text → Option Revision
revision_in s id = find (λ (r : Revision). r.id == id) s.revisions

abbrev pub is_asked : Query → Entry → Bool
is_asked q e = (is_empty q.status || e.status == q.status) && (is_empty q.kind || e.kind == q.kind)

unfoldable pub memory : Env Memory
unfolding entry_in access_in revision_in
memory = record {
  save = λ e s. (ok tt, record s { entries = e ∷ s.entries });
  get = λ id s. (ok (entry_in s id), s);
  list = λ q s. (ok (filter (is_asked q) s.entries), s);
  save_content_type = λ t s. (ok tt, record s { content_types = t ∷ s.content_types });
  get_content_type = λ id s. (ok (find (λ (t : ContentType). t.id == id) s.content_types), s);
  list_content_types = λ s. (ok s.content_types, s);
  save_setting = λ v s. (ok tt, record s { settings = v ∷ s.settings });
  get_setting = λ key s. (ok (find (λ (v : Setting). v.key == key) s.settings), s);
  list_settings = λ s. (ok s.settings, s);
  save_user = λ u s. (ok tt, s);
  get_user = λ id s. (ok none, s);
  list_users = λ s. (ok [], s);
  save_definition = λ d s. (ok tt, s);
  get_definition = λ id s. (ok none, s);
  save_term = λ t s. (ok tt, s);
  list_terms = λ t s. (ok [], s);
  save_asset = λ a s. (ok tt, s);
  get_asset = λ id s. (ok none, s);
  list_assets = λ s. (ok [], s);
  save_menu = λ m s. (ok tt, s);
  list_menus = λ s. (ok [], s);
  get_menu_by_location = λ l s. (ok none, s);
  save_revision = λ r s. (ok tt, record s { revisions = r ∷ s.revisions });
  get_revision = λ id s. (ok (revision_in s id), s);
  save_preview = λ a s. (ok tt, record s { previews = a ∷ s.previews });
  get_preview = λ token s. (ok (access_in s token), s);
  now = λ s. (s.clock, record s { clock = suc s.clock });
  random_token = λ s. (codes "t0k3n", s);
}

saved :
    (e : Entry) (es : List Entry) (j : Text)
    → (find (λ (x : Entry). x.id == j) (e ∷ es) ≡ find (λ (x : Entry). x.id == j) es)
      ⊎ ((e.id ≡ j) × (find (λ (x : Entry). x.id == j) (e ∷ es) ≡ some e))
saved e es j = elim (Bool-cases (e.id == j)) [
  | inl same ↦ inr ((==_iff e.id j).0 same, rw same refl)
  | inr other ↦ inl (rw other refl)
]

pub memory-EntryLaws : EntryLaws memory entry_in
unfolding memory entry_in
memory-EntryLaws = record {
  get_reads = λ id s. refl;
  types_keep = λ kind s j. refl;
  now_keeps = λ s j. refl;
  save_writes = λ e s j. saved e s.entries j;
}

abbrev pub AnyOrder : Memory → Type 0
AnyOrder s = Unit

pub memory-SaveLaws : SaveLaws memory entry_in AnyOrder
unfolding memory entry_in
memory-SaveLaws = record {
  save_ok = λ e s order kinds done. rw (==_refl e.id) refl;
  save_err = λ e s failed. absurd (ground arith);
  save-InOrder = λ e s order. order;
  types-InOrder = λ kind s order. order;
  now-InOrder = λ s order. order;
}

pub memory-PreviewLaws : PreviewLaws memory access_in
unfolding memory access_in
memory-PreviewLaws = record {
  get_reads = λ token s a found. rw found refl;
  save_ok = λ a s done. rw (==_refl a.token) refl;
}

pub memory-RevisionLaws : RevisionLaws memory revision_in
unfolding memory revision_in
memory-RevisionLaws = record {
  get_reads = λ id s r found. rw found refl;
  save_ok = λ r s done. rw (==_refl r.id) refl;
}

pub memory-ReadOnly : ReadOnly memory
unfolding memory
memory-ReadOnly = record {
  get = λ id s. refl;
  list = λ q s. refl;
  content_types = λ s. refl;
  content_type = λ id s. refl;
  settings = λ s. refl;
  user = λ id s. refl;
  terms = λ t s. refl;
  asset = λ id s. refl;
  assets = λ s. refl;
  menus = λ s. refl;
  menu = λ l s. refl;
}

asked :
    (q : Query) (es : List Entry)
    → is_empty q.status ≡ false
    → All (λ (e : Entry). e.status ≡ q.status) (filter (is_asked q) es)
asked q [] named = tt
asked q (e ∷ es) named = elim (Bool-cases (e.status == q.status)) [
  | inl same ↦ elim (Bool-cases (is_empty q.kind || e.kind == q.kind)) [
    | inl kind ↦ rw (named, same, kind) ((==_iff e.status q.status).0 same, asked q es named)
    | inr other ↦ rw (named, same, other) (asked q es named)
  ]
  | inr other ↦ rw (named, other) (asked q es named)
]

pub memory-ListLaws : ListLaws memory
unfolding memory
memory-ListLaws = record {
  status = λ q s items named listed.
      subst (All (λ (e : Entry). e.status ≡ q.status)) (ok-injective _ items listed)
        (asked q s.entries named);
}
