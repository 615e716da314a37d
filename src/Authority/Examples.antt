-- ===== src/Authority/Examples.antt =====
-- Examples for the decisions of src/authority.mjs.
use ai_sdlc_framework.Authority.Fixtures.{
  plain_effect, at_noon, build, branch_push, push_consent, first_approval,
}
use ai_sdlc_framework.Prelude.{
  true, false, List, [], ◌∷◌, ◌++◌, some, ◌≡◌, refl, member, any, same, String, ◌⊎◌, ◌↔◌, IsIn, ◌≢◌,
  inl, inr,
}
use ai_sdlc_framework.Result.{ok}
use ai_sdlc_framework.Authority.Records.{
  Event, Record, event, reservation, repository_observation, Reservation, Action, once, test_design,
}
use ai_sdlc_framework.Authority.Active.{events, active_events}
use ai_sdlc_framework.Authority.Scope.{
  matches_scope, find_authority, observes, publication_destination, digest_is, scope_matches,
  once_matches,
}
use ai_sdlc_framework.Authority.Permission.{
  permission_matches, phase_authority, transitions, is_true, is_requirements, in_scope,
  PhaseAuthority, push_matches, push_complete, push_fields_match, latest, latest_from,
  latest_authority, transition_authority,
}
use ai_sdlc_framework.Authority.Revocation.{IsLive, active_events_iff, revocation_final}
use ai_sdlc_framework.Authority.Grants.{
  find_authority_sound, once_exclusive, push_permission_bound, SamePush, without_lifetime,
}
use ai_sdlc_framework.Authority.PhaseOrder.{IsLatest, phase_authority-IsLatest}

-- A consent that is good for one operation.
abbrev consent : Event
consent = record {
  id = "d1";
  kind = "consent";
  sequence = 1;
  effect = record plain_effect { lifetime = some once };
}

abbrev withdrawal : Event
withdrawal = record {
  id = "d2";
  kind = "revocation";
  sequence = 2;
  effect = record plain_effect { revokes = "d1" ∷ [] };
}

abbrev reserved : Reservation
reserved = record { event_id = "d1"; operation_id = "op" }

abbrev reserved_records : List Record
reserved_records = event consent ∷ reservation reserved ∷ []

active_events_iff_example : IsIn consent (active_events reserved_records at_noon) ↔ (
    IsIn (event consent) reserved_records
    × ((r : Event) → IsIn (event r) reserved_records → member r.effect.revokes "d1" ≡ false)
    × IsLive at_noon (some once))
active_events_iff_example = active_events_iff reserved_records at_noon consent

revocation_final_example :
    ¬ IsIn consent (active_events (reserved_records ++ event withdrawal ∷ []) at_noon)
revocation_final_example = revocation_final reserved_records [] withdrawal consent at_noon refl

find_authority_sound_example :
    IsIn (event consent) reserved_records
    × (consent.kind ≡ "consent")
    × ((r : Event) → IsIn (event r) reserved_records → member r.effect.revokes "d1" ≡ false)
    × IsLive at_noon (some once)
    × (matches_scope (λ u. u) reserved_records consent build ≡ ok true)
unfolding find_authority active_events matches_scope scope_matches once_matches
find_authority_sound_example =
    find_authority_sound (λ u. u) reserved_records "consent" build at_noon {e = consent} refl

once_exclusive_example : (matches_scope (λ u. u) reserved_records consent build ≡ ok true) ↔ (
    (build.operation_id ≡ some "op")
    × (reserved.operation_id ≢ "")
    × (matches_scope (λ u. u) reserved_records (without_lifetime consent) build ≡ ok true))
once_exclusive_example =
    once_exclusive (λ u. u) (event consent ∷ []) [] consent build reserved refl refl unreserved
  where
    unreserved : (q : Reservation) → IsIn (reservation q) (event consent ∷ []) → q.event_id ≢ "d1"
    unreserved q (inl x) = cc
    unreserved q (inr k) = elim k [ ]

abbrev push : Action
push = record build { class = "push"; repository_id = some "repo"; publication = branch_push }

abbrev observed_records : List Record
observed_records =
    repository_observation (record {
      repository_id = "repo";
      local_repository_path = "/repo";
      remote_repository_url = "url";
    })
    ∷ event push_consent
    ∷ []

push_permission_bound_example :
    SamePush branch_push branch_push
    × (is_true (some false) ≡ false
        → (branch_push.source_ref ≡ branch_push.source_ref)
          × (branch_push.source_revision ≡ branch_push.source_revision))
    × (any (observes push) observed_records ≡ true)
    × ((u : String) × (some "url" ≡ some u) × (some "url" ≡ some u))
unfolding permission_matches matches_scope scope_matches once_matches push_matches push_complete
    digest_is publication_destination observes push_fields_match
push_permission_bound_example =
    push_permission_bound (λ u. u) observed_records push_consent push refl

abbrev approved : PhaseAuthority
approved = record { active = true; event_id = some "d4" }

phase_authority-IsLatest_example :
    ((transitions (events (event first_approval ∷ [])) ≡ []) × (is_requirements test_design ≡ true))
    ⊎ ((e : Event) × IsLatest e (transitions (events (event first_approval ∷ [])))
        × (some "d4" ≡ some e.id)
        × (any (λ f. same f.id e.id) (active_events (event first_approval ∷ []) at_noon) ≡ true)
        × (in_scope (λ u. u) (event first_approval ∷ []) e (some build) ≡ ok true))
unfolding phase_authority latest transitions events latest_authority transition_authority
    latest_from active_events in_scope scope_matches once_matches
phase_authority-IsLatest_example =
    phase_authority-IsLatest (λ u. u) (event first_approval ∷ []) test_design (some build) at_noon
      {r = approved} refl refl
