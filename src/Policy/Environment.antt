-- ===== src/Policy/Environment.antt =====
-- `effectiveEnvironments` and `resolveActionEnvironment` of src/policy.mjs. A JavaScript set is a
-- list in the order of insertion.
use ai_sdlc_framework.Prelude.{
  Bool, true, false, not, ◌&&◌, ◌||◌, List, [], ◌∷◌, ◌++◌, Option, none, some, if◌then◌else◌, same,
  same_opt, member, String, ltb, length, ◌==◌,
}

-- The fields of an action that the resolution reads.
pub record Action : Type 0 where
  pub class : String
  pub environment : Option String
  pub implicit_environments : List String
  pub stages : List String
  pub provider : Option String
  pub pipeline : Option String
  pub target : Option String
  pub config_digest : Option String

-- An entry of `configuration.environmentMappings`.
pub record Mapping : Type 0 where
  pub label : String
  pub environment : String
  pub provider : Option String
  pub pipeline : Option String
  pub target : Option String
  pub config_digest : Option String

abbrev pub canonical_environments : List String
canonical_environments = "DEV" ∷ "STAGING" ∷ "PROD" ∷ []

abbrev pub environment_actions : List String
environment_actions = "build" ∷ "deploy" ∷ "pipeline" ∷ "pr-validation" ∷ []

abbrev pub is_canonical : String → Bool
is_canonical e = member canonical_environments e

-- The messages, with the labels that they name. The code sorts the environments of a conflict.
pub data Reason : Type 0 where
  unmapped : List String → Reason
  no_environment : Reason
  conflicting : List String → Reason
  local_environment : Reason

unfoldable pub mapping_matches : Mapping → Action → String → Bool
mapping_matches m a label =
    same m.label label
    && same_opt m.provider a.provider
    && same_opt m.pipeline a.pipeline
    && same_opt m.target a.target
    && same_opt m.config_digest a.config_digest

-- `set.add(value)`
unfoldable pub add : List String → String → List String
add set e = if member set e then set else set ++ e ∷ []

-- The environments of the mappings that match a label, in order.
unfoldable pub mapped : List Mapping → Action → String → List String
unfolding mapping_matches
mapped [] a label = []
mapped (m ∷ ms) a label =
    let rest = mapped ms a label in if mapping_matches m a label then m.environment ∷ rest else rest

unfoldable pub add_all : List String → List String → List String
unfolding add
add_all set [] = set
add_all set (e ∷ es) = add_all (add set e) es

-- What one label adds: itself, or what it is mapped to.
unfoldable pub label_environments : List Mapping → Action → String → List String
unfolding mapped
label_environments ms a label = if is_canonical label then label ∷ [] else mapped ms a label

unfoldable pub add_labels : List Mapping → Action → List String → List String → List String
add_labels ms a set [] = set
add_labels ms a set (label ∷ labels) =
    add_labels ms a (add_all set (label_environments ms a label)) labels

abbrev pub is_empty {ℓ} : {A : Type ℓ} → List A → Bool
is_empty [] = true
is_empty (x ∷ xs) = false

-- The implicit labels that no mapping resolves.
unfoldable pub unresolved : List Mapping → Action → List String → List String
unresolved ms a [] = []
unresolved ms a (label ∷ labels) =
    let rest = unresolved ms a labels in
    if is_empty (label_environments ms a label) then label ∷ rest else rest

abbrev pub own_environment : Option String → List String
own_environment none = []
own_environment (some e) = if is_canonical e then e ∷ [] else []

unfoldable pub environments : List Mapping → Action → List String
environments ms a =
    add_labels ms a (add_labels ms a (own_environment a.environment) a.implicit_environments)
      a.stages

-- `ENVIRONMENT_ACTIONS.has(class) || class === 'test' && environment !== 'local'`
unfoldable pub is_required : Action → Bool
is_required a =
    member environment_actions a.class
    || (same a.class "test" && not (same_opt a.environment (some "local")))

abbrev pub when : Bool → Reason → List Reason
when b r = if b then r ∷ [] else []

unfoldable pub reasons : List Mapping → Action → List Reason
reasons ms a =
    when (not (is_empty (unresolved ms a a.implicit_environments)))
      (unmapped (unresolved ms a a.implicit_environments))
    ++ (when (is_required a && is_empty (environments ms a)) no_environment
        ++ (when (ltb 1 (length (environments ms a))) (conflicting (environments ms a))
            ++ when (is_required a && same_opt a.environment (some "local")) local_environment))

pub record Resolution : Type 0 where
  pub action : Action
  pub resolved : Bool
  pub required : Bool
  pub environments : List String
  pub reasons : List Reason

-- `if (environments.size === 1) normalized.environment = [...environments][0]`
abbrev pub normalized : Action → List String → Action
normalized a [] = a
normalized a (e ∷ []) = record a { environment = some e }
normalized a (e ∷ f ∷ es) = a

unfoldable pub resolve_action_environment : List Mapping → Action → Resolution
resolve_action_environment ms a = record {
  action = normalized a (environments ms a);
  resolved = is_empty (reasons ms a) && (not (is_required a) || length (environments ms a) == 1);
  required = is_required a;
  environments = environments ms a;
  reasons = reasons ms a;
}
