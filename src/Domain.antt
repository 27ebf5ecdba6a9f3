-- ===== src/Domain.antt =====
-- The data of package domain.
pub mod Variables
pub mod Docker
pub mod Command
pub mod Secret
pub mod Volumes
