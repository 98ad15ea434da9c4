-- ===== src/Sqlite/Invariant.antt =====
-- What holds of the database in every state that the store can reach.
pub mod Tables
pub mod Statements
pub mod Rows
pub mod WellFormed
pub mod Users
pub mod Comments
pub mod Blogs
pub mod Posts
pub mod Methods
