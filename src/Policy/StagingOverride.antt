-- ===== src/Policy/StagingOverride.antt =====
-- Which override replaces the configured executor of the STAGING tests, for `effectiveStagingExecution` of
-- src/staging.mjs.
use ai_sdlc_framework.Prelude.{
  Bool, true, List, ◌∷◌, some, if◌then◌else◌, member, truthy, String, ◌≡◌, refl, otherwise,
}
use ai_sdlc_framework.Result.{Result, ok, fail, ◌>>=◌}
use ai_sdlc_framework.Authority.Records.{Action, Context, Event, Record, Scope}
use ai_sdlc_framework.Authority.Active.{active_events}
use ai_sdlc_framework.Authority.Scope.{matches_scope}
use ai_sdlc_framework.Policy.Request.{StagingExecution}
use ai_sdlc_framework.Policy.Staging.{
  Execution, fallbacks, chosen_execution, effective_staging_execution,
}

abbrev keep : Result Bool → Event → Result (List Event) → Result (List Event)
keep m f rest = do matched ← m; more ← rest; ok (if matched then f ∷ more else more)

module _ (digest : String → String) (records : List Record) (a : Action) where
  pub found_execution :
      (base : Execution) (c : Context) {x : StagingExecution}
      → (effective_staging_execution digest records a) (some base) c ≡ ok x
      → (found : List Event) × ((fallbacks digest records a) (active_events records c) ≡ ok found)
        × (x ≡ (chosen_execution digest records a) base found)
  unfolding effective_staging_execution
  found_execution base c h = chosen ((fallbacks digest records a) (active_events records c)) h
    where
      chosen :
          {x : StagingExecution} (r : Result (List Event))
          → (r >>= λ found. ok ((chosen_execution digest records a) base found)) ≡ ok x
          → (found : List Event) × (r ≡ ok found)
            × (x ≡ (chosen_execution digest records a) base found)
      chosen (ok found) k = (found, refl, cc)
      chosen (fail e) k = cc

  -- The decision is an override of the STAGING executor whose scope names that owner and that host, and
  -- it covers the action in STAGING, by the owner and on the host of the action or else by those.
  abbrev pub Replaces : Event → String → String → Type 0
  Replaces e owner host =
      (e.kind ≡ "override")
      × (member e.effect.rules "staging-execution-contract" ≡ true)
      × ((s : Scope) × (e.effect.scope ≡ some s) × (s.owner ≡ some owner) × (s.host ≡ some host))
      × (truthy (some owner) ≡ true)
      × (truthy (some host) ≡ true)
      × (matches_scope digest records e (record a {
        environment = some "STAGING";
        owner = some (otherwise a.owner owner);
        host = some (otherwise a.host host);
      })
          ≡ ok true)
