-- ===== src/Handlers.antt =====
-- internal/handlers: the pages and forms of the blog.
pub mod Web
pub mod Auth
pub mod Comment
pub mod Assets
pub mod Pages
pub mod Laws
