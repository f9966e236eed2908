-- ===== src/Services/Taxonomy.antt =====
-- internal/application/taxonomy/service.go
use app_gocms.Prelude.{◌++◌, ◌||◌, List, if◌then◌else◌, Exec, pure, require, fail_if, ◌>>=◌, ◌>>◌}
use app_gocms.Text.{Text, codes, is_empty}
use app_gocms.Text.Quote.{quote}
use app_gocms.Domain.{Entry, TaxonomyDefinition, Term, mode_flat}
use app_gocms.Env.{Env}
use app_gocms.Content.{content_not_found}

module _ {S : Type 0} (env : Env S) where
  unfoldable pub register : TaxonomyDefinition → Exec S Unit
  register definition = do
    fail_if (is_empty definition.taxonomy_type) (codes "taxonomy type is required")
    env.save_definition (record definition {
      mode = if is_empty definition.mode then mode_flat else definition.mode;
    })

  unfoldable pub create_term : Term → Exec S Unit
  create_term term = do
    fail_if (is_empty term.id || is_empty term.taxonomy_type)
        (codes "term id and taxonomy type are required")
    definition ← env.get_definition term.taxonomy_type
    require (codes "taxonomy " ++ (quote term.taxonomy_type ++ codes " is not registered"))
        definition
    env.save_term term

  unfoldable pub list_terms : Text → Exec S (List Term)
  list_terms taxonomy_type = env.list_terms taxonomy_type

  unfoldable pub assign_terms : Text → List Text → Exec S Entry
  assign_terms entry_id term_ids = do
    found ← env.get entry_id
    entry ← require (content_not_found entry_id) found
    let assigned = record entry { term_ids = term_ids }
    env.save assigned
    pure assigned
