-- ===== src/Authority/Grants.antt =====
-- What a matching decision grants, and what it never grants.
use ai_sdlc_framework.Prelude.{
  refl, none, Bool, true, false, List, [], ◌∷◌, some, same, any, member, ◌≡◌, ◌⊎◌, inl, inr, arith,
  ap, ◌∙◌, sym, String, same_iff, same_opt_eq, Option, is_defined, IsIn, ◌++◌, ◌≢◌, ◌↔◌, ◌&&◌, ◌||◌,
  not, Bool-cases, same_opt, truthy, if◌then◌else◌,
}
use ai_sdlc_framework.Result.{ok, Result, fail, ◌>>=◌}
use ai_sdlc_framework.Authority.Records.{
  Event, Record, Context, Action, Reservation, Publication, reservation, once, event,
  repository_observation, cycle_record, assurance_marker, other_record,
}
use ai_sdlc_framework.Authority.Active.{active_events}
use ai_sdlc_framework.Authority.Scope.{
  matches_scope, find_matching, find_authority, once_matches, find_reservation, is_once, digest_is,
  publication_destination, observes, publication_matches, scope_matches, reserved_for,
}
use ai_sdlc_framework.Authority.Permission.{
  unset_or_same, unset_or_same_flag, permission_matches, push_matches, push_complete,
  push_fields_match, is_true, same_flag,
}
use ai_sdlc_framework.Authority.Revocation.{IsLive, active_events_iff}

-- The decision without a limit on its use.
abbrev pub without_lifetime : Event → Event
without_lifetime e = record e { effect = record e.effect { lifetime = none } }

first_reservation :
    (before after : List Record) (r : Reservation) (i : String)
    → r.event_id ≡ i
    → ((q : Reservation) → IsIn (reservation q) before → q.event_id ≢ i)
    → find_reservation (before ++ reservation r ∷ after) i ≡ some r
unfolding find_reservation
first_reservation [] after r i s h = rw ((same_iff r.event_id i).1 s) refl
first_reservation (reservation q ∷ rs) after r i s h = elim (Bool-cases (same q.event_id i)) [
  | inl y ↦ absurd (h q (inl refl) ((same_iff q.event_id i).0 y))
  | inr n ↦ rw n (first_reservation rs after r i s (λ p k. h p (inr k)))
]
first_reservation (event e ∷ rs) after r i s h =
    first_reservation rs after r i s (λ p k. h p (inr k))
first_reservation (repository_observation o ∷ rs) after r i s h =
    first_reservation rs after r i s (λ p k. h p (inr k))
first_reservation (cycle_record c ∷ rs) after r i s h =
    first_reservation rs after r i s (λ p k. h p (inr k))
first_reservation (assurance_marker w ∷ rs) after r i s h =
    first_reservation rs after r i s (λ p k. h p (inr k))
first_reservation (other_record j ∷ rs) after r i s h =
    first_reservation rs after r i s (λ p k. h p (inr k))

both_parts :
    (p : Result Bool) (s o : Bool)
    → ((p >>= λ x. ok (x && s && o)) ≡ ok true)
      ↔ ((o ≡ true) × ((p >>= λ x. ok (x && s && true)) ≡ ok true))
both_parts (fail c) s o = (λ h. cc, λ h. cc h.1)
both_parts (ok x) s o = (λ h. ground (arith, h), λ h. ground (arith, h))

reserved_iff :
    (a : Option String) (i : String)
    → ((truthy a && same_opt (some i) a) ≡ true) ↔ ((a ≡ some i) × (i ≢ ""))
reserved_iff none i = (λ h. cc, λ h. cc)
reserved_iff (some s) i = (forth, back)
  where
    named : same s "" ≡ true → not (same s "") ≡ true → ⊥
    named y n = cc (y, n)

    forth : (not (same s "") && same i s) ≡ true → ((some s ≡ some i) × (i ≢ ""))
    forth h =
        let found : i ≡ s = (same_iff i s).0 (ground (arith, h)) in
        (
          ap (λ x. some x) (sym found),
          λ e. named ((same_iff s "").1 (sym found ∙ e)) (ground (arith, h)),
        )

    back : ((some s ≡ some i) × (i ≢ "")) → (not (same s "") && same i s) ≡ true
    back h =
        let found : s ≡ i = cc h.0 in
        elim (Bool-cases (same s "")) [
          | inl y ↦ absurd (h.1 (sym found ∙ (same_iff s "").0 y))
          | inr n ↦ rw (n, (same_iff i s).1 (sym found)) refl
        ]

module _ (digest : String → String) where
  find_cons :
      (records : List Record) (test : Event → Bool) (a : Action) (f : Event) (fs : List Event)
      {e : Event}
      → find_matching digest records test a (f ∷ fs) ≡ ok (some e)
      → ((e ≡ f) × (test f ≡ true) × (matches_scope digest records f a ≡ ok true))
        ⊎ (find_matching digest records test a fs ≡ ok (some e))
  unfolding find_matching
  find_cons records test a f fs h = ground arith

  pub find_matching_sound :
      (records : List Record) (test : Event → Bool) (a : Action) (es : List Event) {e : Event}
      → find_matching digest records test a es ≡ ok (some e)
      → IsIn e es × (test e ≡ true) × (matches_scope digest records e a ≡ ok true)
  unfolding find_matching
  find_matching_sound records test a [] h = cc
  find_matching_sound records test a (f ∷ fs) {e} h = elim (find_cons records test a f fs h) [
    | inl (x, t, m) ↦ (inl x, ap test x ∙ t, ap (λ g. matches_scope digest records g a) x ∙ m)
    | inr later ↦ let k = find_matching_sound records test a fs later in (inr k.0, k.1, k.2)
  ]

  -- `findAuthority` returns recorded decisions of the wanted kind only, which no recorded decision
  -- revokes, whose lifetime is not over, and whose scope covers the action.
  pub find_authority_sound :
      (records : List Record) (kind : String) (a : Action) (c : Context) {e : Event}
      → find_authority digest records kind a c ≡ ok (some e)
      → IsIn (event e) records
        × (e.kind ≡ kind)
        × ((r : Event) → IsIn (event r) records → member r.effect.revokes e.id ≡ false)
        × IsLive c e.effect.lifetime
        × (matches_scope digest records e a ≡ ok true)
  unfolding find_authority
  find_authority_sound records kind a c {e} h =
      let k = find_matching_sound records (λ x. same x.kind kind) a (active_events records c) h in
      let live = (active_events_iff records c e).0 k.0 in
      (live.0, (same_iff e.kind kind).0 k.1, live.1, live.2, k.2)

  scope_split :
      (records : List Record) (e : Event) (a : Action)
      → (matches_scope digest records e a ≡ ok true) ↔ (
          (once_matches records e a ≡ true)
          × (matches_scope digest records (without_lifetime e) a ≡ ok true))
  unfolding matches_scope publication_matches once_matches
  scope_split records e a =
      both_parts
        (if same e.kind "pr-publication" then publication_matches digest records e a else ok true)
        (scope_matches e.effect.scope a)
        (not (is_once e.effect.lifetime)
          || (truthy a.operation_id && reserved_for (find_reservation records e.id) a.operation_id))

  once_reserved :
      (records : List Record) (e : Event) (a : Action) (r : Reservation)
      → e.effect.lifetime ≡ some once
      → find_reservation records e.id ≡ some r
      → once_matches records e a
        ≡ (truthy a.operation_id && same_opt (some r.operation_id) a.operation_id)
  unfolding once_matches
  once_reserved records e a r o f = rw (o, f) refl

  -- A once-only decision that an operation has reserved first covers an action exactly when the action
  -- is one of that operation, which has an identity, and the decision covers it but for being once-only.
  pub once_exclusive :
      (before after : List Record) (e : Event) (a : Action) (r : Reservation)
      → e.effect.lifetime ≡ some once
      → r.event_id ≡ e.id
      → ((q : Reservation) → IsIn (reservation q) before → q.event_id ≢ e.id)
      → (matches_scope digest (before ++ reservation r ∷ after) e a ≡ ok true) ↔ (
          (a.operation_id ≡ some r.operation_id)
          × (r.operation_id ≢ "")
          × (matches_scope digest (before ++ reservation r ∷ after) (without_lifetime e) a
              ≡ ok true))
  once_exclusive before after e a r o same_event first =
      let records = before ++ reservation r ∷ after in
      let parts = scope_split records e a in
      let reserved =
        once_reserved records e a r o (first_reservation before after r e.id same_event first) in
      let holder = reserved_iff a.operation_id r.operation_id in
      (
        λ h. let k = parts.0 h in let own = holder.0 (sym reserved ∙ k.0) in (own.0, own.1, k.1),
        λ h. parts.1 (reserved ∙ holder.1 (h.0, h.1), h.2),
      )

  push_inversion :
      (records : List Record) (e : Event) (a : Action)
      → permission_matches digest records e "push" a ≡ ok true
      → push_matches digest records e a ≡ ok true
  unfolding permission_matches
  push_inversion records e a h = ground (arith, same_iff "push" "push")

  push_parts :
      (records : List Record) (e : Event) (a : Action)
      → push_matches digest records e a ≡ ok true
      → (push_complete e.effect.publication ≡ true)
        × (push_fields_match e.effect.publication a.publication ≡ true)
        × (any (observes a) records ≡ true)
        × (digest_is digest a.publication.remote_repository_url a.publication.remote_url_digest
            ≡ ok true)
  unfolding push_matches publication_destination
  push_parts records e a h = ground arith

same_flag_eq : (s t : Option Bool) → same_flag s t ≡ true → t ≡ s
same_flag_eq s t h = ground arith

field_bound : (s t : Option String) → is_defined s ≡ true → unset_or_same s t ≡ true → t ≡ s
field_bound none t d h = cc
field_bound (some s) t d h = sym (same_opt_eq (some s) t h)

flag_bound : (s t : Option Bool) → is_defined s ≡ true → unset_or_same_flag s t ≡ true → t ≡ s
flag_bound none t d h = cc
flag_bound (some s) t d h = same_flag_eq (some s) t h

-- The fields of a push that a permission fixes.
abbrev pub SamePush : Publication → Publication → Type 0
SamePush p q =
    (q.local_repository_path ≡ p.local_repository_path)
    × (q.remote_repository_url ≡ p.remote_repository_url)
    × (q.remote_url_digest ≡ p.remote_url_digest)
    × (q.target_ref ≡ p.target_ref)
    × (q.force ≡ p.force)
    × (q.delete ≡ p.delete)

push_same :
    (p q : Publication) → push_complete p ≡ true → push_fields_match p q ≡ true → SamePush p q
unfolding push_complete push_fields_match
push_same p q c m = (
  field_bound p.local_repository_path q.local_repository_path (ground arith) (ground arith),
  field_bound p.remote_repository_url q.remote_repository_url (ground arith) (ground arith),
  field_bound p.remote_url_digest q.remote_url_digest (ground arith) (ground arith),
  field_bound p.target_ref q.target_ref (ground arith) (ground arith),
  flag_bound p.force q.force (ground arith) (ground arith),
  flag_bound p.delete q.delete (ground arith) (ground arith),
)

-- Without deletion the source is fixed too.
push_source :
    (p q : Publication)
    → push_complete p ≡ true
    → push_fields_match p q ≡ true
    → is_true p.delete ≡ false
    → (q.source_ref ≡ p.source_ref) × (q.source_revision ≡ p.source_revision)
unfolding push_complete push_fields_match
push_source p q c m d = (
  field_bound p.source_ref q.source_ref (ground arith) (ground arith),
  field_bound p.source_revision q.source_revision (ground arith) (ground arith),
)

digest_bound :
    (digest : String → String) (url other : Option String)
    → digest_is digest url other ≡ ok true
    → (u : String) × (url ≡ some u) × (other ≡ some (digest u))
unfolding digest_is
digest_bound digest none other h = cc
digest_bound digest (some u) other h =
    (u, refl, sym (same_opt_eq (some (digest u)) other (ground arith)))

-- A push permission covers one push only: to a destination that a recorded observation of the
-- repository shows, at the digest of its URL, with the local path, URL, target branch, force flag and
-- delete flag of the permission, and, unless it deletes, its source branch and revision.
pub push_permission_bound :
    (digest : String → String) (records : List Record) (e : Event) (a : Action)
    → permission_matches digest records e "push" a ≡ ok true
    → SamePush e.effect.publication a.publication
      × (is_true e.effect.publication.delete ≡ false
          → (a.publication.source_ref ≡ e.effect.publication.source_ref)
            × (a.publication.source_revision ≡ e.effect.publication.source_revision))
      × (any (observes a) records ≡ true)
      × ((u : String) × (a.publication.remote_repository_url ≡ some u)
          × (a.publication.remote_url_digest ≡ some (digest u)))
push_permission_bound digest records e a h =
    let parts = push_parts digest records e a (push_inversion digest records e a h) in
    (
      push_same e.effect.publication a.publication parts.0 parts.1,
      push_source e.effect.publication a.publication parts.0 parts.1,
      parts.2,
      digest_bound digest a.publication.remote_repository_url a.publication.remote_url_digest
          parts.3,
    )
