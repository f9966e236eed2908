-- ===== src/App.antt =====
-- pkg/app: the application around the services. `Options` chooses the mode and the secret, `Boundary`
-- says who a request comes from, `Routes` what is served in which mode, and `Actions` what the forms
-- of the administration do.
pub mod Options
pub mod Boundary
pub mod Routes
pub mod Actions
pub mod Handling
pub mod Extended
