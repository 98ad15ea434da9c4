-- ===== src/Sqlite/Laws.antt =====
-- What the methods of the store do, as their callers see it.
pub mod Validation
pub mod Zones
pub mod BlogCreation
pub mod BlogSuccess
pub mod Ownership
pub mod Pages
pub mod Deletion
pub mod Listing
pub mod Publication
pub mod Accounts
pub mod FirstAccount
