-- ===== src/Lib.antt =====
-- App GoCMS, a headless content management system in Go: its domain, its services, its REST API, its
-- public site and what they stand on.
--
-- A request to the REST API (internal/delivery/rest) or to the public site
-- (internal/delivery/publicsite) opens one transaction of the storage, in which the application
-- services (internal/application) work on the entries, content types, taxonomies, media, settings,
-- menus, users, revisions and previews (internal/domain) through the interfaces that they declare.
-- The public site turns a path into an entry by internal/permalinks and renders it with a theme
-- (internal/themes). Plugins (internal/extensions) add routes, settings and hooks; internal/operations
-- keeps the logs of the site and its snapshots; internal/storage keeps every record as a row.
--
-- Which file is about what:
--   Prelude          numbers, lists, `int` with its wrap-around, errors, and operations on a state:
--                    `Exec S A` is a function from the state to a value or an error, and the state
--                    after it; what was written before an error stays written, as in Go.
--   Text             `string` as bytes, and the functions of package `strings` that are called.
--   Domain           internal/domain: a record for each struct, `validate` of an entry.
--   Env              the repositories, the clock and the random bytes that the services are given:
--                    the methods of `ApplicationRepositories` of internal/storage/adapters.go.
--   Adapters         internal/storage/adapters.go: those methods over the repositories of records,
--                    `application_repositories`. Adapters/Cells, Entries, Values, Views and Saves
--                    have what the rows hold after a call, and Adapters/Refines puts them together.
--   Content          internal/application/content/service.go: `create_draft`, `update`, `publish`,
--                    `schedule`, `trash`, `restore`, `archive`; Content/Lifecycle, Effects and
--                    Creation are about what they leave in the storage.
--   Services         the other packages of internal/application, a file for each.
--   Authn            internal/application/authn/service.go: logins, their lockout, app tokens, and
--                    roles with the capabilities of pkg/module/capabilities. Authn/Seeded is the store
--                    that an application starts with.
--   Permalinks       internal/permalinks/resolver.go: `resolve` and `entry_path`.
--   Rest             internal/delivery/rest: `dispatch` and `handle`, the handler of each collection,
--                    `list_envelope`, `merge_content`, the answers for errors.
--   PublicRender     internal/publicrender/model.go: the data of a page.
--   PublicSite       internal/delivery/publicsite: `assemble` and `serve`;
--                    PublicSite/Themes is internal/themes/registry.go.
--   Extensions       internal/extensions/runtime.go: manifests, `new_runtime`, `activate`, the guard
--                    of a route; Extensions/Hooks is its hook bus.
--   Operations       internal/operations/operations.go: the bounded logs, redaction, health, export
--                    and import; what an import does is in Operations/Imports and
--                    Operations/Restored.
--   Sql              the SQL statements of a store, as a database runs them that is an argument: their
--                    columns, conditions and conflict keys, and what they promise.
--   Storage          internal/storage/sqlite/store.go and tables.go; Storage/Repositories is the
--                    repositories of internal/storage/storage.go, Storage/Transactions `WithinTx`.
--   App              pkg/app: App/Options the options and modes, App/Routes the routes of a mode,
--                    App/Boundary the sessions, logins and action tokens, App/Actions the actions of
--                    the BFF (bff_actions.go), App/Handling their handler and that of
--                    screens, App/Extended the runtime with the plugins.
--   Screens          internal/appschema: screens.go, and the hydration of hydrate.go in
--                    Screens/Hydration; Screens/EditForms is about a form that is sent back.
--   Plugins          internal/plugins: the GraphQL and the operations plugin.
--   Worker           internal/worker/pool.go: the steps of the pool's goroutines as a relation, and the
--                    pools that can be reached. Worker/Ends is about how a run ends.
--   Tests            a storage in memory, rows in memory with a codec, and runs of the operations on
--                    concrete inputs.
--
-- A handler returns its answer and the state after it; a panic is an answer of its own, or `none`.
-- Loops are recursions on their lists, so that nothing runs on fuel. A map is the list of its
-- entries, in the order of the iteration, or a function. Time is a number of nanoseconds, 0 for the
-- zero time. Arithmetic on `int` wraps around at 64 bits where a request can reach the bound.
--
-- Arguments of the model, with what is asked of them named beside the theorems: the storage that
-- the services are given, the platform's dispatch of actions and its pages, the database that runs
-- the SQL statements and `encoding/json` of the rows, the hasher of passwords and the hash of
-- tokens, signed texts, random bytes, the clock, and the templates of the themes.
--
-- Not modelled: the SQL of the migrations, the start of the application with its flags and the mux
-- (cmd, pkg/app), the platform that renders screens and navigates, which is another repository's, the
-- discovery documents of the REST API, the writing of JSON and of HTML, and the static tables of
-- records, panels and relations for the platform.
pub mod Prelude
pub mod Text
pub mod Domain
pub mod Env
pub mod Content
pub mod Services
pub mod Plugins
pub mod Permalinks
pub mod Rest
pub mod Adapters
pub mod App
pub mod Authn
pub mod Extensions
pub mod Operations
pub mod PublicRender
pub mod PublicSite
pub mod Screens
pub mod Sql
pub mod Storage
pub mod Tests
pub mod Worker
