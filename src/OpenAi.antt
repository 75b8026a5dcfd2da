-- ===== src/OpenAi.antt =====
-- internal/provider/openai: the client side of the OpenAI Responses API.
pub mod Events
pub mod Stream
