-- ===== src/Services.antt =====
-- The smaller services of internal/application, one module for each package. The entry part of the
-- storage is that of `Env`.
pub mod ContentTypes
pub mod Media
pub mod Menus
pub mod Previews
pub mod Revisions
pub mod Settings
pub mod Taxonomy
pub mod Users
