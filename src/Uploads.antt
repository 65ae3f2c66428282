-- ===== src/Uploads.antt =====
-- Small images that users upload, and their serving.
pub mod DataUrl
pub mod Routes
pub mod Accepted
pub mod Served
mod Examples
