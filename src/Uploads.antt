-- ===== src/Uploads.antt =====
-- internal/uploads: what the tray shows of uploads.
pub mod History
pub mod Tracker
