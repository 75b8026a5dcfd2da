-- ===== src/Gemini.antt =====
-- internal/provider/gemini: the Gemini provider.
pub mod Stream
pub mod Schema
