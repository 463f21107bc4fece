-- ===== src/Api.antt =====
-- The HTTP surface.
pub mod OpenaiRequests
pub mod OpenaiCompat
