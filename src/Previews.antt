-- ===== src/Previews.antt =====
-- internal/url_previews: the links of a message (Extract, extract.go) and their previews (Embed,
-- embed.go).
pub mod Extract
pub mod Links
pub mod Embed
pub mod Meta
pub mod Description
pub mod Page
mod Tests
