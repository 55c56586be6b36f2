-- ===== src/Models.antt =====
-- pkg/models/models.go.
pub mod Tag
pub mod Asset
pub mod Indexed
