-- ===== src/Cache.antt =====
-- internal/cache: the webserver's view of the published dataset.
pub mod Options
pub mod Facets
pub mod State
pub mod Hits
pub mod Engine
pub mod Query
pub mod Find
