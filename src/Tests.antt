-- ===== src/Tests.antt =====
-- Runs of the code at concrete inputs, and the theorems applied to them.
mod World
mod Sqlite
mod Accounts
mod Utils
mod Handlers
mod Middleware
mod Content
mod Shelf
mod Images
mod Assets
mod LocalPosts
mod Router
mod Site
mod Publication
mod Server
mod Seeder
