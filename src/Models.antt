-- ===== src/Models.antt =====
-- The data models of app/models.
pub mod Config
pub mod State
pub mod Samples
