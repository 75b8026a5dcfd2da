-- ===== src/Balancer/Tests.antt =====
-- The balancers at work on three accounts.
use cc_gateway.Base.{ℤ, pos, ◌≡◌, refl, String, [], ◌∷◌, some, In, str_eq, if◌then◌else◌, arith}
use cc_gateway.Domain.{Account}
use cc_gateway.Balancer.{round_robin, select_least, select_weighted, weight}
use cc_gateway.Balancer.Choice.{IsLeast, select_least-IsLeast}
use cc_gateway.Balancer.Rotation.{choices, choices-rotation}
use cc_gateway.Balancer.Weights.{select_weighted-interval}

abbrev pub sample : String → ℤ → Account
sample id limit = record {
  id = id;
  name = id;
  provider = "openai";
  base_url = "";
  api_key = "k";
  proxy_url = "";
  user_agent = "";
  status = "enabled";
  health = "healthy";
  allowed_models = [];
  model_aliases = [];
  max_concurrent = limit;
  extra = [];
  circuit_breaker = record {
    failure_threshold = pos 0;
    success_threshold = pos 0;
    open_duration = "";
  };
}

abbrev pub small : Account
small = sample "small" (pos 1)

abbrev pub large : Account
large = sample "large" (pos 3)

abbrev pub spare : Account
spare = sample "spare" (pos 2)

abbrev busy : String → ℤ
busy id = if str_eq id "large" then pos 4 else if str_eq id "small" then pos 2 else pos 3

select_least-IsLeast_example :
    In small (large ∷ small ∷ spare ∷ []) × IsLeast busy small (large ∷ small ∷ spare ∷ [])
unfolding select_least
select_least-IsLeast_example = select_least-IsLeast busy (large ∷ small ∷ spare ∷ []) small refl

choices-rotation_example :
    choices busy 3 (round_robin 7) (small ∷ large ∷ spare ∷ [])
    ≡ some large ∷ some spare ∷ some small ∷ []
choices-rotation_example = choices-rotation busy 7 small (large ∷ spare ∷ []) (omega arith)

select_weighted-interval_example : (select_weighted 8 (small ∷ large ∷ spare ∷ [])).1 ≡ some large
unfolding weight
select_weighted-interval_example =
    select_weighted-interval small large (spare ∷ []) (small ∷ []) (spare ∷ []) large 8 1 refl
      (omega arith) (omega arith) refl (omega arith)
