-- ===== src/Authority/Scope.antt =====
-- `matchesScope`, `findAuthority`, `applicableOverride` and `permissionMatches` of src/authority.mjs,
-- and `publicationDestination` of src/current-evidence.mjs. `digest` is the SHA-256 of the canonical
-- list of one URL, which comes from Node's crypto module; without a URL the code throws.
use ai_sdlc_framework.Prelude.{
  Bool, true, false, not, ◌&&◌, ◌||◌, List, [], ◌∷◌, Option, none, some, if◌then◌else◌, same,
  same_opt, truthy, is_defined, member, member_opt, every, any, String,
}
use ai_sdlc_framework.Result.{Result, ok, fail, input, ◌>>=◌}
use ai_sdlc_framework.Authority.Records.{
  Event, Record, event, reservation, repository_observation, Reservation, cycle_record,
  assurance_marker, other_record, Lifetime, once, cycle, until, work_item, Context, Scope, Action,
  Publication, Effect,
}
use ai_sdlc_framework.Authority.Active.{active_events}

-- `scope[key] && scope[key] !== action[key]` is false
abbrev pub agrees : Option String → Option String → Bool
agrees wanted actual = not (truthy wanted) || same_opt wanted actual

-- `scope.list && !scope.list.includes(value)` is false; a list is always truthy.
abbrev pub lists : Option (List String) → Option String → Bool
lists none value = true
lists (some values) value = member_opt values value

abbrev pub is_empty_list {ℓ} : {A : Type ℓ} → List A → Bool
is_empty_list [] = true
is_empty_list (x ∷ xs) = false

-- `scope.paths && (!action.paths?.length || !action.paths.every(…))` is false
abbrev pub covers_paths : Option (List String) → List String → Bool
covers_paths none paths = true
covers_paths (some allowed) paths = not (is_empty_list paths) && every (member allowed) paths

-- `scope ?? {}`
unfoldable pub scope_matches : Option Scope → Action → Bool
scope_matches none a = true
scope_matches (some s) a =
    agrees s.item_id a.item_id
    && agrees s.operation_id a.operation_id
    && agrees s.environment a.environment
    && agrees s.target a.publication.target
    && agrees s.owner a.owner
    && agrees s.host a.host
    && lists s.repository_ids a.repository_id
    && lists s.actions (some a.class)
    && covers_paths s.paths a.paths

-- The first reservation of an event.
unfoldable pub find_reservation : List Record → String → Option Reservation
find_reservation [] i = none
find_reservation (reservation r ∷ rs) i =
    if same r.event_id i then some r else find_reservation rs i
find_reservation (event e ∷ rs) i = find_reservation rs i
find_reservation (repository_observation o ∷ rs) i = find_reservation rs i
find_reservation (cycle_record c ∷ rs) i = find_reservation rs i
find_reservation (assurance_marker w ∷ rs) i = find_reservation rs i
find_reservation (other_record j ∷ rs) i = find_reservation rs i

abbrev pub is_once : Option Lifetime → Bool
is_once none = false
is_once (some work_item) = false
is_once (some once) = true
is_once (some (cycle i)) = false
is_once (some (until t)) = false

abbrev pub reserved_for : Option Reservation → Option String → Bool
reserved_for none operation = true
reserved_for (some r) operation = same_opt (some r.operation_id) operation

-- A once-only grant belongs to the operation that has reserved it.
unfoldable pub once_matches : List Record → Event → Action → Bool
unfolding find_reservation
once_matches records e a =
    not (is_once e.effect.lifetime)
    || (truthy a.operation_id && reserved_for (find_reservation records e.id) a.operation_id)

-- `record.type === 'repository-observation' && …`
unfoldable pub observes : Action → Record → Bool
observes a (repository_observation o) =
    same_opt (some o.repository_id) a.repository_id
    && same_opt (some o.local_repository_path) a.publication.local_repository_path
    && same_opt (some o.remote_repository_url) a.publication.remote_repository_url
observes a (event e) = false
observes a (reservation r) = false
observes a (cycle_record c) = false
observes a (assurance_marker w) = false
observes a (other_record i) = false

-- The fields of the consent that must be there and must be those of the action.
abbrev pub destination_complete : Publication → Bool
destination_complete p =
    is_defined p.target
    && is_defined p.local_repository_path
    && is_defined p.remote_repository_url
    && is_defined p.source_repository_url

abbrev pub same_destination : Publication → Publication → Bool
same_destination p q =
    same_opt p.target q.target
    && same_opt p.local_repository_path q.local_repository_path
    && same_opt p.remote_repository_url q.remote_repository_url
    && same_opt p.source_repository_url q.source_repository_url

abbrev pub has_description : Publication → Bool
has_description p =
    is_defined p.description_digest
    || is_defined p.coverage_digest
    || is_defined p.previous_description_digest
    || is_defined p.description_version

abbrev pub same_description : Publication → Publication → Bool
same_description p q =
    same_opt p.source_revision q.source_revision
    && same_opt p.pr_id q.pr_id
    && same_opt p.description_digest q.description_digest
    && same_opt p.coverage_digest q.coverage_digest
    && same_opt p.previous_description_digest q.previous_description_digest
    && same_opt p.description_version q.description_version

-- The description is bound where the action or the consent names one.
abbrev pub description_bound : Effect → Action → Bool
description_bound f a =
    not (has_description a.publication || has_description f.publication)
    || (same_opt f.publication_action (some a.class)
        && same_description f.publication a.publication)

module _ (digest : String → String) where
  -- `digest([url]) === other`
  unfoldable pub digest_is : Option String → Option String → Result Bool
  digest_is none other = fail input
  digest_is (some url) other = ok (same_opt (some (digest url)) other)

  unfoldable pub publication_destination : List Record → Action → Bool → Result Bool
  publication_destination records a push =
      if not (any (observes a) records)
      then ok false
      else if push
      then digest_is a.publication.remote_repository_url a.publication.remote_url_digest
      else ok true

  -- `action.class === 'push' && digest([url]) !== action.remoteUrlDigest` returns false
  unfoldable pub push_bound : Action → Result Bool
  push_bound a =
      if same a.class "push"
      then digest_is a.publication.remote_repository_url a.publication.remote_url_digest
      else ok true

  unfoldable pub publication_matches : List Record → Event → Action → Result Bool
  publication_matches records e a =
      if not (destination_complete e.effect.publication) then ok false else do
        bound ← push_bound a
        if not (bound && same_destination e.effect.publication a.publication) then ok false else do
          there ← publication_destination records a (same a.class "push")
          ok (there && description_bound e.effect a)

  unfoldable pub matches_scope : List Record → Event → Action → Result Bool
  matches_scope records e a = do
    published ← (if same e.kind "pr-publication" then publication_matches records e a else ok true)
    ok (published && scope_matches e.effect.scope a && once_matches records e a)

  -- `events.find(event => test(event) && matchesScope(event, action, records))`
  unfoldable pub find_matching :
      List Record → (Event → Bool) → Action → List Event → Result (Option Event)
  find_matching records test a [] = ok none
  find_matching records test a (e ∷ es) =
      let rest = find_matching records test a es in
      if test e
      then (do matched ← matches_scope records e a; if matched then ok (some e) else rest)
      else rest

  unfoldable pub find_authority : List Record → String → Action → Context → Result (Option Event)
  unfolding find_matching
  find_authority records kind a c =
      find_matching records (λ e. same e.kind kind) a (active_events records c)

  unfoldable pub applicable_override :
      List Record → String → Action → Context → Result (Option Event)
  unfolding find_matching
  applicable_override records rule a c =
      find_matching records (λ e. same e.kind "override" && member e.effect.rules rule) a
        (active_events records c)
