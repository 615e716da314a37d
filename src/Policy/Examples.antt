-- ===== src/Policy/Examples.antt =====
-- An example for the environment resolution of src/policy.mjs.
use ai_sdlc_framework.Prelude.{
  true, false, [], ◌∷◌, some, none, ◌≡◌, refl, member, String, ◌⊎◌, same_opt,
}
use ai_sdlc_framework.Policy.Environment.{
  Action, Mapping, environments, resolve_action_environment, label_environments, is_canonical,
  is_empty, is_required, reasons, unresolved, add_labels, add_all,
}
use ai_sdlc_framework.Policy.EnvironmentSound.{resolved_single}

abbrev deploy : Action
deploy = record {
  class = "deploy";
  environment = none;
  implicit_environments = "eu" ∷ [];
  stages = "DEV" ∷ [];
  provider = none;
  pipeline = none;
  target = none;
  config_digest = none;
}

abbrev eu_is_dev : Mapping
eu_is_dev = record {
  label = "eu";
  environment = "DEV";
  provider = none;
  pipeline = none;
  target = none;
  config_digest = none;
}

resolved_single_example :
    (e : String) × (environments (eu_is_dev ∷ []) deploy ≡ e ∷ [])
    × ((resolve_action_environment (eu_is_dev ∷ []) deploy).action.environment ≡ some e)
    × (same_opt none (some "local") ≡ false)
    × ((x : String) → none ≡ some x → is_canonical x ≡ true → x ≡ e)
    × ((label x : String)
        → (member ("eu" ∷ []) label ≡ true) ⊎ (member ("DEV" ∷ []) label ≡ true)
        → member (label_environments (eu_is_dev ∷ []) deploy label) x ≡ true
        → x ≡ e)
    × ((label : String)
        → member ("eu" ∷ []) label ≡ true
        → is_empty (label_environments (eu_is_dev ∷ []) deploy label) ≡ false)
unfolding resolve_action_environment is_required reasons unresolved label_environments environments
    add_labels add_all
resolved_single_example = resolved_single (eu_is_dev ∷ []) deploy refl refl
