-- ===== src/Authority/Fixtures.antt =====
-- Records for the examples of src/authority.mjs and src/policy.mjs.
use ai_sdlc_framework.Prelude.{false, [], some, none}
use ai_sdlc_framework.Authority.Records.{
  Publication, Effect, Event, Action, Context, requirements, test_design,
}

abbrev pub no_publication : Publication
no_publication = record {
  target = none;
  local_repository_path = none;
  remote_repository_url = none;
  source_repository_url = none;
  source_revision = none;
  pr_id = none;
  description_digest = none;
  coverage_digest = none;
  previous_description_digest = none;
  description_version = none;
  remote_url_digest = none;
  source_ref = none;
  target_ref = none;
  force = none;
  delete = none;
}

abbrev pub plain_effect : Effect
plain_effect = record {
  transition = none;
  rules = [];
  revokes = [];
  grant = none;
  scope = none;
  lifetime = none;
  publication_action = none;
  publication = no_publication;
  item_id = none;
  cycle_id = none;
  candidate_digest = none;
  test_spec_digest = none;
  config_digest = none;
}

abbrev pub at_noon : Context
at_noon = record { cycle_id = none; now = 12 }

abbrev pub build : Action
build = record {
  class = "build";
  repository_id = none;
  item_id = none;
  operation_id = some "op";
  environment = none;
  owner = none;
  host = none;
  config_digest = none;
  paths = [];
  publication = no_publication;
}

abbrev pub branch_push : Publication
branch_push = record no_publication {
  target = some "origin";
  local_repository_path = some "/repo";
  remote_repository_url = some "url";
  remote_url_digest = some "url";
  source_ref = some "main";
  source_revision = some "r1";
  target_ref = some "main";
  force = some false;
  delete = some false;
}

abbrev pub push_consent : Event
push_consent = record {
  id = "d3";
  kind = "permission";
  sequence = 3;
  effect = record plain_effect { grant = some "push"; publication = branch_push };
}

abbrev pub first_approval : Event
first_approval = record {
  id = "d4";
  kind = "approval";
  sequence = 4;
  effect = record plain_effect {
    transition = some (record { from = requirements; to = test_design });
  };
}
