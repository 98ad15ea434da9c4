-- ===== src/Handlers/Laws.antt =====
-- What a visitor, a user and a stranger can do through the handlers.
pub mod Login
pub mod Registration
pub mod Comments
pub mod CommentDeletion
pub mod Assets
pub mod AssetCache
pub mod Missing
pub mod Publication
