-- ===== src/Authority/Active.antt =====
-- `activeEvents` of src/authority.mjs.
use ai_sdlc_framework.Prelude.{
  Bool, false, not, ◌&&◌, List, [], ◌∷◌, ◌++◌, Option, none, some, leb, if◌then◌else◌, same_opt,
  member, String,
}
use ai_sdlc_framework.Authority.Records.{
  Event, Record, event, reservation, repository_observation, cycle_record, assurance_marker,
  other_record, Lifetime, work_item, once, cycle, until, Context,
}

-- `records.filter(record => record.type === 'event')`
unfoldable pub events : List Record → List Event
events [] = []
events (event e ∷ rs) = e ∷ events rs
events (reservation r ∷ rs) = events rs
events (repository_observation o ∷ rs) = events rs
events (cycle_record c ∷ rs) = events rs
events (assurance_marker w ∷ rs) = events rs
events (other_record i ∷ rs) = events rs

-- `events.flatMap(event => event.effect.revokes ?? [])`
unfoldable pub revoked : List Event → List String
revoked [] = []
revoked (e ∷ es) = e.effect.revokes ++ revoked es

unfoldable pub lifetime_over : Context → Option Lifetime → Bool
lifetime_over c none = false
lifetime_over c (some work_item) = false
lifetime_over c (some once) = false
lifetime_over c (some (cycle i)) = not (same_opt (some i) c.cycle_id)
lifetime_over c (some (until none)) = false
lifetime_over c (some (until (some t))) = leb t c.now

abbrev pub is_active : Context → List String → Event → Bool
is_active c gone e = not (member gone e.id) && not (lifetime_over c e.effect.lifetime)

unfoldable pub filter_active : Context → List String → List Event → List Event
unfolding lifetime_over
filter_active c gone [] = []
filter_active c gone (e ∷ es) =
    let rest = filter_active c gone es in if is_active c gone e then e ∷ rest else rest

unfoldable pub active_events : List Record → Context → List Event
unfolding events revoked filter_active
active_events records c = filter_active c (revoked (events records)) (events records)
