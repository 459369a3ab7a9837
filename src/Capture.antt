-- ===== src/Capture.antt =====
-- The capture of rendered pages (src/app/capture).
pub mod Pagination
pub mod RawStore
pub mod Browser
