-- ===== src/Web.antt =====
-- The web server's own logic, of internal/web.
pub mod Filters
pub mod Params
pub mod Address
pub mod Handlers
pub mod Client
pub mod Limiter
