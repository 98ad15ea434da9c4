-- ===== src/Seeder.antt =====
-- internal/seeder: the blogs and posts that files describe, put in the store.
pub mod Manifest
pub mod Blogs
pub mod Posts
pub mod Walk
pub mod PostWalk
pub mod WalkLaws
pub mod PostWalkLaws
pub mod Growth
pub mod Inserts
pub mod Laws
