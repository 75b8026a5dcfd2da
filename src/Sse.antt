-- ===== src/Sse.antt =====
-- pkg/sse: server-sent events.
pub mod Writer
pub mod Reader
