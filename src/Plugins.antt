-- ===== src/Plugins.antt =====
-- internal/plugins: the routes and handlers of the plugins that come with the application.
pub mod Graphql
pub mod Ops
