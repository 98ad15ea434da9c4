-- ===== src/Sqlite.antt =====
-- storage/sqlite: the store over the database that the migrations build.
pub mod Table
pub mod Database
pub mod Query
pub mod Validate
pub mod Users
pub mod Comments
pub mod Blogs
pub mod Posts
pub mod Bootstrap
pub mod Accounts
pub mod Invariant
pub mod Laws
