-- ===== src/Operations.antt =====
-- internal/operations/operations.go: the bounded logs of events and errors, the health check, and the
-- export and import of a snapshot. The repositories of records and the transaction that they are
-- used in are arguments; a field of a record that holds no text is none of the texts of its `Fields`.
pub mod Log
pub mod Redaction
pub mod Collections
pub mod Imports
pub mod Restored
use app_gocms.Prelude.{
  ℕ, suc, ◌+◌, ◌-◌, ℤ, pos, leb_ℤ, pos_part, Bool, true, false, not, ◌||◌, Option, none, some, List,
  [], ◌∷◌, ◌++◌, length, drop, ltb, if◌then◌else◌, Result, ok, err, Error, Exec, pure, raise, ◌>>=◌,
  ◌>>◌,
}
use app_gocms.Text.{Text, codes, ◌==◌, is_empty, contains, to_lower}
use app_gocms.Domain.{Time}
use app_gocms.Storage.Repositories.{Repository, Repositories}

-- A value of a map of details: a text, or anything else.
pub data Detail (V : Type 0) : Type 0 where
  text : Text → Detail V
  other : V → Detail V

abbrev pub Details : Type 0 → Type 0
Details V = Option (List (Text × Detail V))

pub record AuditEvent (V : Type 0) : Type 0 where
  pub action : Text
  pub actor : Text
  pub resource : Text
  pub details : Details V
  pub created_at : Time

pub record ErrorRecord : Type 0 where
  pub message : Text
  pub source : Text
  pub created_at : Time

pub record Store (V : Type 0) : Type 0 where
  pub audit : List (AuditEvent V)
  pub errors : List ErrorRecord
  pub limit : ℕ

unfoldable pub append_bounded : {A : Type 0} → List A → A → ℕ → List A
append_bounded items item limit =
    let all = items ++ item ∷ [] in
    if ltb limit (length all) then drop (length all - limit) all else all

unfoldable pub is_sensitive : Text → Bool
is_sensitive key =
    contains (to_lower key) (codes "token")
    || contains (to_lower key) (codes "secret")
    || contains (to_lower key) (codes "password")

module _ {V : Type 0} where
  unfoldable pub redact_each : List (Text × Detail V) → List (Text × Detail V)
  unfolding is_sensitive
  redact_each [] = []
  redact_each ((key, value) ∷ details) =
      (key, if is_sensitive key then text (codes "[redacted]") else value) ∷ redact_each details

  unfoldable pub redact : Details V → Details V
  unfolding redact_each
  redact none = none
  redact (some details) = some (redact_each details)

  unfoldable pub new_store : ℤ → Store V
  new_store limit = record {
    audit = [];
    errors = [];
    limit = if leb_ℤ limit (pos 0) then 50 else pos_part limit;
  }

  -- The event as it is kept: at its instant, with its details redacted.
  abbrev pub stamped : Time → AuditEvent V → AuditEvent V
  stamped now event = record event { created_at = now; details = redact event.details }

  unfoldable pub record_audit : Time → AuditEvent V → Store V → Store V
  unfolding append_bounded
  record_audit now event s = record s { audit = append_bounded s.audit (stamped now event) s.limit }

  unfoldable pub record_error : Time → ErrorRecord → Store V → Store V
  unfolding append_bounded
  record_error now e s = record s {
    errors = append_bounded s.errors (record e { created_at = now }) s.limit;
  }

pub record HealthResult : Type 0 where
  pub id : Text
  pub status : Text
  pub message : Text

abbrev healthy : Text → Text → HealthResult
healthy id message = record { id = id; status = codes "ok"; message = message }

abbrev parts_up : Text → List HealthResult
parts_up runtime_state =
    healthy (codes "plugin_runtime") runtime_state
    ∷ healthy (codes "audit") []
    ∷ healthy (codes "diagnostics") []
    ∷ []

noted : {V : Type 0} → Error → Time → Option (Store V) → Option (Store V)
unfolding record_error
noted e now none = none
noted e now (some s) =
    some
      (record_error now (record { source = codes "health.storage"; message = e; created_at = 0 }) s)

-- `checked` is how the listing of the content types in a transaction ends.
unfoldable pub health :
    {V : Type 0}
    → Result (Unit {0})
    → Option (Store V)
    → Text
    → Time
    → List HealthResult × Option (Store V)
unfolding noted
health (ok _) ops runtime_state now =
    (parts_up runtime_state ++ healthy (codes "storage") [] ∷ [], ops)
health (err e) ops runtime_state now = (
  parts_up runtime_state
      ++ record { id = codes "storage"; status = codes "error"; message = e } ∷ [],
  noted e now ops,
)

pub record Snapshot (R : Type 0) : Type 0 where
  pub version : Text
  pub exported_at : Time
  pub posts : List R
  pub pages : List R
  pub content_types : List R
  pub taxonomies : List R
  pub terms : List R
  pub media : List R
  pub authors : List R
  pub settings : List R
  pub menus : List R

abbrev pub snapshot_version : Text
snapshot_version = codes "gocms.snapshot.v1"

-- `field r name` is `r[name].(string)`, which is empty for a missing field or another type.
module _ {R : Type 0} (field : R → Text → Text) where
  -- The first of the three fields that holds a text.
  unfoldable pub id_of : R → Text
  id_of r =
      if not (is_empty (field r (codes "id")))
      then field r (codes "id")
      else if not (is_empty (field r (codes "key")))
      then field r (codes "key")
      else field r (codes "location")

module _ {S R : Type 0} (field : R → Text → Text) where
  unfoldable pub import_items : Repository S R → List R → Exec S (Unit {0})
  unfolding id_of
  import_items repo [] = pure tt
  import_items repo (item ∷ items) =
      let rest = import_items repo items in
      if is_empty (id_of field item) then rest else repo.put (id_of field item) item >> rest

  unfoldable pub import_groups : List (Repository S R × List R) → Exec S (Unit {0})
  unfolding import_items
  import_groups [] = pure tt
  import_groups ((repo, items) ∷ groups) = import_items repo items >> import_groups groups

  unfoldable pub import_snapshot : Repositories S R → Snapshot R → Exec S (Unit {0})
  unfolding import_groups
  import_snapshot repos snapshot = import_groups (
      (repos.content_types, snapshot.content_types)
      ∷ (repos.taxonomies, snapshot.taxonomies)
      ∷ (repos.terms, snapshot.terms)
      ∷ (repos.authors, snapshot.authors)
      ∷ (repos.posts, snapshot.posts)
      ∷ (repos.pages, snapshot.pages)
      ∷ (repos.media_assets, snapshot.media)
      ∷ (repos.settings, snapshot.settings)
      ∷ (repos.menus, snapshot.menus)
      ∷ [])

module _ {S R : Type 0} where
  unfoldable pub export_snapshot : Time → Repositories S R → Exec S (Snapshot R)
  export_snapshot now repos = do
    content_types ← repos.content_types.list
    taxonomies ← repos.taxonomies.list
    terms ← repos.terms.list
    authors ← repos.authors.list
    posts ← repos.posts.list
    pages ← repos.pages.list
    media ← repos.media_assets.list
    settings ← repos.settings.list
    menus ← repos.menus.list
    pure (record {
      version = snapshot_version;
      exported_at = now;
      posts = posts;
      pages = pages;
      content_types = content_types;
      taxonomies = taxonomies;
      terms = terms;
      media = media;
      authors = authors;
      settings = settings;
      menus = menus;
    })
