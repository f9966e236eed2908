-- ===== src/Rest.antt =====
-- internal/delivery/rest: the REST interface.
pub mod Pagination
pub mod Routes
pub mod Dispatch
pub mod Visibility
pub mod Errors
pub mod Search
pub mod Authorization
pub mod Handled
pub mod Content
pub mod Merge
pub mod Reply
use app_gocms.Prelude.{ℕ}
