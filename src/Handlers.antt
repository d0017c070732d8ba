-- ===== src/Handlers.antt =====
-- internal/handlers and internal/middleware: which page an HTTP request ends at.
pub mod Verify
pub mod Pages
pub mod Media
pub mod Socket
pub mod Watch
pub mod Auth
pub mod Friends
pub mod Login
mod Checks
