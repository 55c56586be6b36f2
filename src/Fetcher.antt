-- ===== src/Fetcher.antt =====
-- internal/fetcher: the planner of browse views (planner.go), and the discovery of tags (tags.go).
pub mod Slice
pub mod Planner
pub mod Tags
pub mod Pace
pub mod Fetch
pub mod Page
