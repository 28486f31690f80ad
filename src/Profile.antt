-- ===== src/Profile.antt =====
-- internal/profile: the stored profiles, and the checks that each of them passes.
pub mod Model
pub mod Provider
pub mod Validate
pub mod Id
pub mod Contents
pub mod Store
pub mod DisplayName
pub mod Grouped
