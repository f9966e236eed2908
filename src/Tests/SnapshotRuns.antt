-- ===== src/Tests/SnapshotRuns.antt =====
-- A run of the import of a snapshot, over rows in memory.
use app_gocms.Prelude.{◌≡◌, refl, Option, some, [], ◌∷◌, arith}
use app_gocms.Text.{Text, codes, ◌==◌, is_empty}
use app_gocms.Domain.{Value, Fields, end, field, text}
use app_gocms.Storage.{get_field, set_field, put, table_for_record_type}
use app_gocms.Storage.Repositories.{repositories}
use app_gocms.Operations.{
  Snapshot, snapshot_version, id_of, import_items, import_groups, import_snapshot,
}
use app_gocms.Operations.Collections.{posts}
use app_gocms.Operations.Imports.{last_with}
use app_gocms.Operations.Restored.{read_of, restored, import_snapshot_restores}
use app_gocms.Tests.Table.{rows, format, flat, shifted, rows-RowLaws, rows-StatementLaws}

abbrev text_or_empty : Option Value → Text
text_or_empty (some (text t)) = t
text_or_empty _ = []

abbrev text_field : Fields → Text → Text
text_field r name = text_or_empty (get_field name r)

abbrev hello : Text → Fields
hello slug = field (codes "id") (text (codes "p1")) (field (codes "slug") (text slug) end)

-- The bundle names the post twice.
abbrev bundle : Snapshot Fields
bundle = record {
  version = snapshot_version;
  exported_at = 7;
  posts = hello (codes "hello") ∷ hello (codes "later") ∷ [];
  pages = hello (codes "page") ∷ [];
  content_types = [];
  taxonomies = [];
  terms = [];
  media = [];
  authors = [];
  settings = [];
  menus = [];
}

import_snapshot_restores_example :
    read_of rows format
      (codes "root")
      posts
      (import_snapshot text_field (repositories rows format (codes "root")) bundle []).1
      (codes "p1")
    ≡ last_with text_field
        (restored rows format (codes "root") text_field)
        (codes "p1")
        (hello (codes "hello") ∷ hello (codes "later") ∷ [])
        (read_of rows format (codes "root") posts [] (codes "p1"))
unfolding import_snapshot import_groups import_items id_of is_empty put flat table_for_record_type
    set_field get_field ◌==◌ rows shifted
import_snapshot_restores_example =
    import_snapshot_restores rows format (codes "root") text_field rows-StatementLaws rows-RowLaws
      bundle posts (codes "p1") []
      (import_snapshot text_field (repositories rows format (codes "root")) bundle []).1
      (λ h. ground (arith, h)) refl
