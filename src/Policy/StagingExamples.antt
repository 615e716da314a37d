-- ===== src/Policy/StagingExamples.antt =====
-- An example for the STAGING executor of src/staging.mjs.
use ai_sdlc_framework.Prelude.{true, [], ◌∷◌, some, none}
use ai_sdlc_framework.Authority.Records.{Event, Scope}
use ai_sdlc_framework.Authority.Fixtures.{plain_effect}
use ai_sdlc_framework.Policy.Request.{StagingExecution}
use ai_sdlc_framework.Policy.Staging.{Execution}

abbrev user_at_desk : Scope
user_at_desk = record {
  item_id = none;
  operation_id = none;
  environment = some "STAGING";
  target = none;
  owner = some "user";
  host = some "desk";
  repository_ids = none;
  actions = none;
  paths = none;
}

abbrev fallback : Event
fallback = record {
  id = "d7";
  kind = "override";
  sequence = 7;
  effect = record plain_effect {
    rules = "staging-execution-contract" ∷ [];
    scope = some user_at_desk;
  };
}

abbrev agent_execution : Execution
agent_execution = record { owner = "agent"; locations = "lab" ∷ [] }

abbrev user_execution : StagingExecution
user_execution = record {
  resolved = true;
  owner = some "user";
  locations = "desk" ∷ [];
  overridden = true;
}
