-- ===== src/Worker.antt =====
-- worker/src/media: what the workers compute from the indexed segments.
pub mod ClipTiming
