-- ===== src/Policy/Request.antt =====
-- What `evaluatePolicy` of src/policy.mjs reads: the action, the state of the work item, the
-- configuration, and what the other components answer about evidence.
use ai_sdlc_framework.Prelude.{
  Bool, true, false, not, ◌&&◌, ◌||◌, List, [], ◌∷◌, Option, none, some, if◌then◌else◌, same,
  same_opt, truthy, member, String,
}
use ai_sdlc_framework.Result.{Result, ok, ◌>>=◌}
use ai_sdlc_framework.Authority.Records.{
  Action, Context, Cycle, Event, Phase, Record, Scope, event, reservation, repository_observation,
  cycle_record, assurance_marker, other_record,
}
use ai_sdlc_framework.Authority.Scope.{publication_destination, find_matching}
use ai_sdlc_framework.Authority.Permission.{bound_to_cycle, permission_matches}
use ai_sdlc_framework.Authority.Active.{active_events}
use ai_sdlc_framework.Policy.Environment as Env

-- An action, with the fields that the policy reads besides those that decisions match.
pub record Request : Type 0 where
  pub base : Action
  pub implicit_environments : List String
  pub stages : Option (List String)
  pub provider : Option String
  pub pipeline : Option String
  pub base_ref : Option String
  pub draft : Bool
  pub early_draft : Bool
  pub out_of_scope : Bool
  pub external_permission : Option Bool
  pub preserves_changes : Bool
  pub monitor_capability : Bool
  pub artifact_id : Option String
  pub deployment_id : Option String

-- An entry of `configuration.environments`.
pub record Contract : Type 0 where
  pub target : Option String
  pub config_digest : Option String
  pub allowed_stages : List String
  pub pr_required : Bool
  pub pr_validation : Bool

-- An entry of `configuration.detectedConflicts`.
pub record Detected : Type 0 where
  pub rule : String
  pub environment : String

pub record Configuration : Type 0 where
  pub mappings : List Env.Mapping
  pub detected : List Detected
  pub contracts : List (String × Contract)

-- A record of type `conflict` whose status is `open`.
pub record OpenConflict : Type 0 where
  pub id : String
  pub scope : Option Scope

pub record Member : Type 0 where
  pub repository_id : String
  pub root : String

pub record State : Type 0 where
  pub records : List Record
  pub conflicts : List OpenConflict
  pub members : List Member
  pub lifecycle_status : String
  pub phase : Phase
  pub cycle_ref : Option String

-- A test of the current validation cycle.
pub record PlannedTest : Type 0 where
  pub environment : String
  pub owner : Option String
  pub location : Option String

-- `effectiveStagingExecution`
pub record StagingExecution : Type 0 where
  pub resolved : Bool
  pub owner : Option String
  pub locations : List String
  pub overridden : Bool

pub record Deployment : Type 0 where
  pub id : String
  pub artifact_id : Option String
  pub target : Option String

pub record MergeContext : Type 0 where
  pub merge_revision : String
  pub source_revision : Option String

pub record Artifact : Type 0 where
  pub artifact_id : Option String
  pub environment : Option String
  pub artifact_ref : Option String
  pub local_repository_path : Option String
  pub remote_repository_url : Option String

-- What the other components answer: `stagePassed`, `reviewPassed`, `hasStageCompletion`,
-- `hasStagingCompletion`, `publicationAuthority`, `evaluateReadiness`, `cycleTests`,
-- `checkTestStart`, `effectiveStagingExecution`, `currentDeployment`, `currentArtifact`.
pub record Answers : Type 0 where
  pub stage_passed : String → Bool
  pub review_passed : Bool
  pub stage_completed : String → Bool
  pub staging_completed : Bool
  -- with the `targetRef` that is asked for
  pub publication_authority : Request → Option String → Bool
  pub readiness : String → Request → Bool
  -- the revision of the cycle's source for the repository, and the merge context of the facts of
  -- the pull request
  pub source_revision : Request → Option String
  pub merge_context : Request → Option MergeContext
  -- every path is a framework path or a registered git document
  pub draft_paths : Request → Bool
  -- every path is a registered document of the current or an earlier phase
  pub document_roles : Request → Bool
  pub test : Option PlannedTest
  pub staging_execution : Request → StagingExecution
  pub unit_first : Result Bool
  -- the cycle's deployment to an environment, where it is current
  pub deployment : String → Option Deployment
  -- the cycle's artifact for an environment, where it is current and has the content asked for
  pub artifact : Request → Option Artifact
  pub requested_artifact_ref : Option String

unfoldable pub environment_action : Request → Env.Action
environment_action r = record {
  class = r.base.class;
  environment = r.base.environment;
  implicit_environments = r.implicit_environments;
  stages = elim r.stages [ none ↦ [] | some stages ↦ stages ];
  provider = r.provider;
  pipeline = r.pipeline;
  target = r.base.publication.target;
  config_digest = r.base.config_digest;
}

-- `action = resolution.action`
unfoldable pub with_environment : Request → Env.Resolution → Request
with_environment r s = record r { base = record r.base { environment = s.action.environment } }

-- `members.find(member => member.repositoryId === action.repositoryId)?.root`
unfoldable pub member_root : List Member → Option String → Option String
member_root [] i = none
member_root (m ∷ ms) i = if same_opt (some m.repository_id) i then some m.root else member_root ms i

abbrev pub is_publication : Request → Bool
is_publication r = member ("push" ∷ "pr-create" ∷ "pr-update" ∷ []) r.base.class

-- `effectiveEnvironments`: the canonical ones of the environment, the labels and the stages.
unfoldable pub canonical_only : List String → List String
canonical_only [] = []
canonical_only (e ∷ es) =
    let rest = canonical_only es in if Env.is_canonical e then e ∷ rest else rest

unfoldable pub effective_environments : Request → List String
unfolding canonical_only
effective_environments r =
    let a = environment_action r in
    Env.add_all
      (Env.add_all (Env.add_all [] (Env.own_environment a.environment))
        (canonical_only a.implicit_environments))
      (canonical_only a.stages)

-- `configuration.environments?.[environment]`
unfoldable pub contract : List (String × Contract) → String → Option Contract
contract [] e = none
contract ((f, c) ∷ cs) e = if same f e then some c else contract cs e

module _ (digest : String → String) where
  -- The URL of the first observation of a repository at a path with a digest.
  unfoldable pub observed_url : List Record → Option String → String → String → Option String
  observed_url [] i path d = none
  observed_url (repository_observation o ∷ rs) i path d =
      if same_opt (some o.repository_id) i
        && same o.local_repository_path path
        && same (digest o.remote_repository_url) d
      then some o.remote_repository_url
      else observed_url rs i path d
  observed_url (event e ∷ rs) i path d = observed_url rs i path d
  observed_url (reservation r ∷ rs) i path d = observed_url rs i path d
  observed_url (cycle_record c ∷ rs) i path d = observed_url rs i path d
  observed_url (assurance_marker w ∷ rs) i path d = observed_url rs i path d
  observed_url (other_record j ∷ rs) i path d = observed_url rs i path d

  abbrev pub with_destination : Request → String → Option String → Request
  with_destination r path none = r
  with_destination r path (some url) = record r {
    base = record r.base {
      publication = record r.base.publication {
        local_repository_path = some path;
        remote_repository_url = some url;
      };
    };
  }

  -- A push that names its destination by the digest alone gets the observed path and URL.
  unfoldable pub complete_push : State → Request → Request
  unfolding observed_url member_root
  complete_push s r =
      if not (same r.base.class "push" && not (truthy r.base.publication.remote_repository_url))
      then r
      else elim (member_root s.members r.base.repository_id) [
        | none ↦ r
        | some path ↦ elim r.base.publication.remote_url_digest [
          | none ↦ r
          | some d ↦
              if same path "" || same d ""
              then r
              else with_destination r path (observed_url s.records r.base.repository_id path d)
        ]
      ]

  unfoldable pub authorized_destination : State → Request → Result Bool
  unfolding member_root
  authorized_destination s r =
      if not (is_publication r)
      then ok true
      else if not (
          same_opt r.base.publication.local_repository_path
            (member_root s.members r.base.repository_id))
      then ok false
      else publication_destination digest s.records r.base (same r.base.class "push")

  -- `activeEvents(records, context).some(event => permissionMatches(event, grant, action, records))`
  unfoldable pub any_permission : List Record → String → Action → List Event → Result Bool
  any_permission records grant a [] = ok false
  any_permission records grant a (e ∷ es) =
      let rest = any_permission records grant a es in
      do matched ← permission_matches digest records e grant a; if matched then ok true else rest

  unfoldable pub permission : List Record → String → Action → Context → Result Bool
  unfolding any_permission
  permission records grant a c = any_permission records grant a (active_events records c)

  -- `hasEnvironmentGrant` of src/authority.mjs.
  unfoldable pub has_environment_grant :
      List Record → Option Cycle → String → Action → Context → Result Bool
  has_environment_grant records cycle environment a c = do
    found ←
        find_matching digest records
          (λ e.
            same e.kind
              (if same environment "DEV" then "dev-authorization" else "staging-promotion")
            && bound_to_cycle e.effect cycle
            && same_opt e.effect.publication.target a.publication.target
            && same_opt e.effect.config_digest a.config_digest)
          a (active_events records c)
    elim found [ none ↦ ok false | some e ↦ ok true ]
