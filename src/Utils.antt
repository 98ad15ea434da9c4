-- ===== src/Utils.antt =====
-- internal/utils
pub mod Random
pub mod Slug
pub mod SlugLaws
pub mod RandomLaws
