-- ===== src/Authority/Permission.antt =====
-- `permissionMatches`, `phaseAuthority`, `currentCycle`, `boundToCycle` and `assurancePending` of
-- src/authority.mjs.
use ai_sdlc_framework.Prelude.{
  Bool, true, false, not, ◌&&◌, ◌||◌, List, [], ◌∷◌, Option, none, some, if◌then◌else◌, same,
  same_opt, truthy, is_defined, member, any, ltb, String,
}
use ai_sdlc_framework.Result.{Result, ok, ◌>>=◌}
use ai_sdlc_framework.Authority.Records.{
  Event, Record, event, reservation, repository_observation, cycle_record, assurance_marker,
  other_record, Context, Action, Publication, Effect, Cycle, Phase, requirements, test_design,
  technical_design, coding,
}
use ai_sdlc_framework.Authority.Active.{events, active_events}
use ai_sdlc_framework.Authority.Scope.{
  agrees, matches_scope, digest_is, publication_destination, applicable_override,
}

abbrev pub is_true : Option Bool → Bool
is_true none = false
is_true (some b) = b

abbrev pub same_flag : Option Bool → Option Bool → Bool
same_flag none none = true
same_flag none (some b) = false
same_flag (some b) none = false
same_flag (some true) (some true) = true
same_flag (some true) (some false) = false
same_flag (some false) (some true) = false
same_flag (some false) (some false) = true

-- The fields that a push permission must have: those of the source only where it deletes nothing.
unfoldable pub push_complete : Publication → Bool
push_complete p =
    is_defined p.target
    && is_defined p.remote_url_digest
    && is_defined p.target_ref
    && is_defined p.force
    && is_defined p.delete
    && is_defined p.local_repository_path
    && is_defined p.remote_repository_url
    && (is_true p.delete || (is_defined p.source_ref && is_defined p.source_revision))

abbrev pub unset_or_same : Option String → Option String → Bool
unset_or_same none actual = true
unset_or_same (some s) actual = same_opt (some s) actual

abbrev pub unset_or_same_flag : Option Bool → Option Bool → Bool
unset_or_same_flag none actual = true
unset_or_same_flag (some b) actual = same_flag (some b) actual

-- Each field that the permission names is the one of the push.
unfoldable pub push_fields_match : Publication → Publication → Bool
push_fields_match p q =
    unset_or_same p.local_repository_path q.local_repository_path
    && unset_or_same p.remote_repository_url q.remote_repository_url
    && unset_or_same p.remote_url_digest q.remote_url_digest
    && unset_or_same p.source_ref q.source_ref
    && unset_or_same p.target_ref q.target_ref
    && unset_or_same p.source_revision q.source_revision
    && unset_or_same_flag p.force q.force
    && unset_or_same_flag p.delete q.delete

module _ (digest : String → String) where
  -- The part of `permissionMatches` for a push.
  unfoldable pub push_matches : List Record → Event → Action → Result Bool
  push_matches records e a =
      if not (push_complete e.effect.publication)
      then ok false
      else if not
          (truthy a.publication.local_repository_path && truthy a.publication.remote_repository_url)
      then ok false
      else do
        bound ← digest_is digest a.publication.remote_repository_url a.publication.remote_url_digest
        if not bound then ok false else do
          there ← publication_destination digest records a true
          ok (there && push_fields_match e.effect.publication a.publication)

  unfoldable pub permission_matches : List Record → Event → String → Action → Result Bool
  permission_matches records e grant a =
      if not (
        same e.kind "permission"
        && same_opt e.effect.grant (some grant)
        && agrees e.effect.publication.target a.publication.target)
      then ok false
      else do
        matched ← matches_scope digest records e a
        if not matched
            then ok false
            else if same grant "push"
            then push_matches records e a
            else ok true

-- `records.find(record => record.id === ref && record.type === 'cycle') ?? null`
unfoldable pub current_cycle : List Record → Option String → Option Cycle
current_cycle [] ref = none
current_cycle (cycle_record c ∷ rs) ref =
    if same_opt (some c.id) ref then some c else current_cycle rs ref
current_cycle (event e ∷ rs) ref = current_cycle rs ref
current_cycle (reservation r ∷ rs) ref = current_cycle rs ref
current_cycle (repository_observation o ∷ rs) ref = current_cycle rs ref
current_cycle (assurance_marker w ∷ rs) ref = current_cycle rs ref
current_cycle (other_record i ∷ rs) ref = current_cycle rs ref

unfoldable pub bound_to_cycle : Effect → Option Cycle → Bool
bound_to_cycle f none = false
bound_to_cycle f (some c) =
    same_opt f.cycle_id (some c.id)
    && same_opt f.candidate_digest (some c.candidate_digest)
    && same_opt f.test_spec_digest (some c.test_spec_digest)
    && same_opt f.config_digest (some c.config_digest)

abbrev pub is_marker : Option Cycle → Record → Bool
is_marker c (assurance_marker w) = elim c [ none ↦ false | some d ↦ same w d.work_item_id ]
is_marker c (event e) = false
is_marker c (reservation r) = false
is_marker c (repository_observation o) = false
is_marker c (cycle_record d) = false
is_marker c (other_record i) = false

abbrev pub is_invalidated : Option Cycle → Bool
is_invalidated none = false
is_invalidated (some c) = c.assurance_invalidated

unfoldable pub assurance_pending : Option Cycle → List Record → Bool
assurance_pending c records = is_invalidated c || any (is_marker c) records

-- `events.filter(event => event.effect.transition)`
unfoldable pub transitions : List Event → List Event
transitions [] = []
transitions (e ∷ es) =
    let rest = transitions es in elim e.effect.transition [ none ↦ rest | some t ↦ e ∷ rest ]

-- The earlier of two transitions, unless the later one has a higher sequence.
unfoldable pub higher : Event → Event → Event
higher e f = if ltb e.sequence f.sequence then f else e

-- The first of the highest sequence: `sort((left, right) => right.sequence - left.sequence)[0]`.
unfoldable pub latest_from : Event → List Event → Event
latest_from e [] = e
latest_from e (f ∷ fs) = latest_from (higher e f) fs

unfoldable pub latest : List Event → Option Event
latest [] = none
latest (e ∷ es) = some (latest_from e es)

abbrev pub is_requirements : Phase → Bool
is_requirements requirements = true
is_requirements test_design = false
is_requirements technical_design = false
is_requirements coding = false

pub record PhaseAuthority : Type 0 where
  pub active : Bool
  pub event_id : Option String

abbrev pub has_id : String → Option Event → Bool
has_id i none = false
has_id i (some e) = same e.id i

module _ (digest : String → String) where
  -- `event.kind === 'approval'`, or an override of the phase rule that applies to the action.
  unfoldable pub transition_authority : List Record → Event → Option Action → Context → Result Bool
  unfolding applicable_override
  transition_authority records e none c =
      ok (same e.kind "approval" || (same e.kind "override" && member e.effect.rules "phase"))
  transition_authority records e (some a) c =
      if same e.kind "approval"
      then ok true
      else if same e.kind "override" && member e.effect.rules "phase"
      then (do found ← applicable_override digest records "phase" a c; ok (has_id e.id found))
      else ok false

  unfoldable pub in_scope : List Record → Event → Option Action → Result Bool
  unfolding matches_scope
  in_scope records e none = ok true
  in_scope records e (some a) = matches_scope digest records e a

  -- What the latest transition authorises; an inactive one is not asked for its scope.
  unfoldable pub latest_authority :
      List Record → Event → Option Action → Context → Result PhaseAuthority
  latest_authority records e a c = do
    authority ← transition_authority records e a c
    if not (any (λ f. same f.id e.id) (active_events records c))
        then ok (record { active = false; event_id = some e.id })
        else do
          scoped ← in_scope records e a
          ok (record { active = scoped && authority; event_id = some e.id })

  unfoldable pub phase_authority :
      List Record → Phase → Option Action → Context → Result PhaseAuthority
  phase_authority records phase a c = elim (latest (transitions (events records))) [
    | none ↦ ok (record { active = is_requirements phase; event_id = none })
    | some e ↦ latest_authority records e a c
  ]
