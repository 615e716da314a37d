-- ===== src/Policy/Staging.antt =====
-- `effectiveStagingExecution` of src/staging.mjs: who executes the STAGING tests, and where.
use ai_sdlc_framework.Prelude.{
  Bool, true, false, ◌&&◌, List, [], ◌∷◌, Option, none, some, if◌then◌else◌, same, member, truthy,
  String,
}
use ai_sdlc_framework.Result.{Result, ok, ◌>>=◌}
use ai_sdlc_framework.Authority.Records.{Action, Context, Event, Record, Scope}
use ai_sdlc_framework.Authority.Active.{active_events}
use ai_sdlc_framework.Authority.Scope.{matches_scope}
use ai_sdlc_framework.Policy.Request.{StagingExecution}

-- `configuration.environments.STAGING.execution`
pub record Execution : Type 0 where
  pub owner : String
  pub locations : List String

-- The owner and the host of a scope that has both; an empty text is none.
abbrev pub scope_executor : Option Scope → Option (String × String)
scope_executor none = none
scope_executor (some s) = elim s.owner [
  | none ↦ none
  | some owner ↦ elim s.host [
    | none ↦ none
    | some host ↦ if truthy (some owner) && truthy (some host) then some (owner, host) else none
  ]
]

abbrev pub or_else : Option String → String → Option String
or_else none s = some s
or_else (some t) s = some t

-- The context of the operation, with the executor of the override where the action names none.
abbrev pub staging_action : Action → String → String → Action
staging_action a owner host = record a {
  environment = some "STAGING";
  owner = or_else a.owner owner;
  host = or_else a.host host;
}

abbrev pub is_fallback : Event → Bool
is_fallback e = same e.kind "override" && member e.effect.rules "staging-execution-contract"

abbrev pub unresolved_execution : StagingExecution
unresolved_execution = record { resolved = false; owner = none; locations = []; overridden = false }

module _ (digest : String → String) (records : List Record) (a : Action) where
  unfoldable pub fallback_matches : Event → Result Bool
  fallback_matches e =
      if is_fallback e
      then elim (scope_executor e.effect.scope) [
        | none ↦ ok false
        | some (owner, host) ↦ matches_scope digest records e (staging_action a owner host)
      ]
      else ok false

  unfoldable pub fallbacks : List Event → Result (List Event)
  unfolding fallback_matches
  fallbacks [] = ok []
  fallbacks (e ∷ es) =
      let rest = fallbacks es in
      do matched ← fallback_matches e; more ← rest; ok (if matched then e ∷ more else more)

  unfoldable pub chosen_execution : Execution → List Event → StagingExecution
  chosen_execution base [] = record {
    resolved = true;
    owner = some base.owner;
    locations = base.locations;
    overridden = false;
  }
  chosen_execution base (e ∷ []) = elim (scope_executor e.effect.scope) [
    | none ↦ unresolved_execution
    | some (owner, host) ↦ record {
      resolved = true;
      owner = some owner;
      locations = host ∷ [];
      overridden = true;
    }
  ]
  chosen_execution base (e ∷ f ∷ es) = unresolved_execution

  unfoldable pub effective_staging_execution : Option Execution → Context → Result StagingExecution
  unfolding fallbacks chosen_execution
  effective_staging_execution none c = ok unresolved_execution
  effective_staging_execution (some base) c = do
    found ← fallbacks (active_events records c)
    ok (chosen_execution base found)
