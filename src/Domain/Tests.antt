-- ===== src/Domain/Tests.antt =====
-- Model names and patterns at work.
use cc_gateway.Base.{◌≡◌, ◌↔◌, pos, true, [], ◌∷◌}
use cc_gateway.Domain.{Account}
use cc_gateway.Domain.Models.{can_serve_model}
use cc_gateway.Domain.Models.Laws.{can_serve_model-Serves, Serves}

abbrev relay : Account
relay = record {
  id = "relay";
  name = "Relay";
  provider = "openai";
  base_url = "";
  api_key = "k";
  proxy_url = "";
  user_agent = "";
  status = "enabled";
  health = "healthy";
  allowed_models = "gpt-*" ∷ [];
  model_aliases = ("claude-*", "gpt-5") ∷ ("claude-opus", "gpt-5-pro") ∷ [];
  max_concurrent = pos 2;
  extra = [];
  circuit_breaker = record {
    failure_threshold = pos 0;
    success_threshold = pos 0;
    open_duration = "";
  };
}

can_serve_model-Serves_example : (can_serve_model relay "gpt-4o" ≡ true) ↔ Serves relay "gpt-4o"
can_serve_model-Serves_example = can_serve_model-Serves relay "gpt-4o"
