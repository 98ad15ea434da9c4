-- ===== src/Content.antt =====
-- internal/content: the assets of the posts and the queue that makes their variants.
pub mod Assets
pub mod Images
pub mod Processor
pub mod Markdown
pub mod Repository
pub mod PostContent
pub mod AssetLaws
pub mod MarkdownLaws
pub mod Sync
pub mod SyncLaws
pub mod RepositoryLaws
pub mod ImageLaws
pub mod JobLaws
pub mod Liveness
pub mod ProcessorLaws
