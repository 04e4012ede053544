-- ===== src/Api.antt =====
-- internal/api: the HTTP surface.
pub mod Env
pub mod Middleware
pub mod Handlers
pub mod Ui
pub mod Routes
pub mod Serving
pub mod Guards
pub mod Mutation
pub mod Guarded
pub mod Audit
pub mod Observed
pub mod Measured
pub mod Provenance
