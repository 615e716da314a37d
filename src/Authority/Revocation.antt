-- ===== src/Authority/Revocation.antt =====
-- Which decisions are in force: exactly the recorded ones that nothing has ever revoked and that have
-- not run out.
use ai_sdlc_framework.Prelude.{
  true, false, ◌||◌, List, [], ◌∷◌, ◌++◌, member, ◌≡◌, refl, ◌⊎◌, inl, inr, ◌↔◌, arith, ap,
  Bool-cases, ◌∙◌, sym, String, IsIn, Option, none, some, ◌<◌, same_iff, same_opt_eq,
}
use ai_sdlc_framework.Authority.Records.{
  Event, Record, event, reservation, repository_observation, cycle_record, assurance_marker,
  other_record, Context, Lifetime, work_item, once, cycle, until,
}
use ai_sdlc_framework.Authority.Active.{
  events, revoked, lifetime_over, is_active, filter_active, active_events,
}

filter_active_sound :
    (c : Context) (gone : List String) (e : Event) (es : List Event)
    → IsIn e (filter_active c gone es)
    → IsIn e es × (is_active c gone e ≡ true)
unfolding filter_active
filter_active_sound c gone e [] h = elim h [ ]
filter_active_sound c gone e (f ∷ fs) h = elim (Bool-cases (is_active c gone f)) [
  | inl y ↦ split y (filter_active_sound c gone e fs) (rw y at h)
  | inr n ↦ let k = filter_active_sound c gone e fs (rw n at h) in (inr k.0, k.1)
]
  where
    split :
        is_active c gone f ≡ true
        → (IsIn e (filter_active c gone fs) → IsIn e fs × (is_active c gone e ≡ true))
        → (e ≡ f) ⊎ IsIn e (filter_active c gone fs)
        → IsIn e (f ∷ fs) × (is_active c gone e ≡ true)
    split y ih (inl same_event) = (inl same_event, ap (is_active c gone) same_event ∙ y)
    split y ih (inr later) = let k = ih later in (inr k.0, k.1)

filter_active_complete :
    (c : Context) (gone : List String) (e : Event) (es : List Event)
    → IsIn e es
    → is_active c gone e ≡ true
    → IsIn e (filter_active c gone es)
unfolding filter_active
filter_active_complete c gone e [] h y = elim h [ ]
filter_active_complete c gone e (f ∷ fs) (inl same_event) y =
    rw (ap (is_active c gone) (sym same_event) ∙ y) (inl same_event)
filter_active_complete c gone e (f ∷ fs) (inr later) y = elim (Bool-cases (is_active c gone f)) [
  | inl t ↦ rw t (inr (filter_active_complete c gone e fs later y))
  | inr n ↦ rw n (filter_active_complete c gone e fs later y)
]

pub active_filter_iff :
    (records : List Record) (c : Context) (e : Event)
    → IsIn e (active_events records c) ↔ (
        IsIn e (events records)
        × (member (revoked (events records)) e.id ≡ false)
        × (lifetime_over c e.effect.lifetime ≡ false))
unfolding active_events
active_filter_iff records c e = (
  λ h.
      let k = filter_active_sound c (revoked (events records)) e (events records) h in
      (k.0, ground (arith, k.1), ground (arith, k.1)),
  λ h. filter_active_complete c (revoked (events records)) e (events records) h.0 (ground arith),
)

events-append : (rs qs : List Record) → events (rs ++ qs) ≡ events rs ++ events qs
unfolding events
events-append [] qs = refl
events-append (event e ∷ rs) qs = ap (◌∷◌ e) (events-append rs qs)
events-append (reservation r ∷ rs) qs = events-append rs qs
events-append (repository_observation o ∷ rs) qs = events-append rs qs
events-append (cycle_record c ∷ rs) qs = events-append rs qs
events-append (assurance_marker w ∷ rs) qs = events-append rs qs
events-append (other_record i ∷ rs) qs = events-append rs qs

member-append :
    (xs ys : List String) (s : String) → member (xs ++ ys) s ≡ (member xs s || member ys s)
member-append [] ys s = refl
member-append (x ∷ xs) ys s = ground (arith, member-append xs ys s)

member-revoked :
    (r : Event) (es fs : List Event) (i : String)
    → member r.effect.revokes i ≡ true
    → member (revoked (es ++ r ∷ fs)) i ≡ true
unfolding revoked
member-revoked r [] fs i h = rw (member-append r.effect.revokes (revoked fs) i, h) refl
member-revoked r (e ∷ es) fs i h =
    rw (member-append e.effect.revokes (revoked (es ++ r ∷ fs)) i, member-revoked r es fs i h)
      (ground arith)

event_same : {e f : Event} → ◌≡◌ {A = Record} (event e) (event f) → e ≡ f
event_same {e} {f} h = cc

events-IsIn : (rs : List Record) (e : Event) → IsIn (event e) rs → IsIn e (events rs)
unfolding events
events-IsIn [] e h = elim h [ ]
events-IsIn (event f ∷ rs) e (inl x) = inl (event_same x)
events-IsIn (event f ∷ rs) e (inr k) = inr (events-IsIn rs e k)
events-IsIn (reservation r ∷ rs) e (inl x) = cc
events-IsIn (reservation r ∷ rs) e (inr k) = events-IsIn rs e k
events-IsIn (repository_observation o ∷ rs) e (inl x) = cc
events-IsIn (repository_observation o ∷ rs) e (inr k) = events-IsIn rs e k
events-IsIn (cycle_record c ∷ rs) e (inl x) = cc
events-IsIn (cycle_record c ∷ rs) e (inr k) = events-IsIn rs e k
events-IsIn (assurance_marker w ∷ rs) e (inl x) = cc
events-IsIn (assurance_marker w ∷ rs) e (inr k) = events-IsIn rs e k
events-IsIn (other_record i ∷ rs) e (inl x) = cc
events-IsIn (other_record i ∷ rs) e (inr k) = events-IsIn rs e k

IsIn-events : (rs : List Record) (e : Event) → IsIn e (events rs) → IsIn (event e) rs
unfolding events
IsIn-events [] e h = elim h [ ]
IsIn-events (event f ∷ rs) e (inl x) = inl (ap event x)
IsIn-events (event f ∷ rs) e (inr k) = inr (IsIn-events rs e k)
IsIn-events (reservation r ∷ rs) e k = inr (IsIn-events rs e k)
IsIn-events (repository_observation o ∷ rs) e k = inr (IsIn-events rs e k)
IsIn-events (cycle_record c ∷ rs) e k = inr (IsIn-events rs e k)
IsIn-events (assurance_marker w ∷ rs) e k = inr (IsIn-events rs e k)
IsIn-events (other_record i ∷ rs) e k = inr (IsIn-events rs e k)

revokes_listed :
    (r : Event) (es : List Event) (i : String)
    → IsIn r es
    → member r.effect.revokes i ≡ true
    → member (revoked es) i ≡ true
unfolding revoked
revokes_listed r [] i k h = elim k [ ]
revokes_listed r (e ∷ es) i (inl x) h =
    rw (member-append e.effect.revokes (revoked es) i, sym x, h) refl
revokes_listed r (e ∷ es) i (inr k) h =
    rw (member-append e.effect.revokes (revoked es) i, revokes_listed r es i k h) (ground arith)

never_listed :
    (es : List Event) (i : String)
    → ((r : Event) → IsIn r es → member r.effect.revokes i ≡ false)
    → member (revoked es) i ≡ false
unfolding revoked
never_listed [] i h = refl
never_listed (e ∷ es) i h =
    let rest = never_listed es i (λ r k. h r (inr k)) in
    rw (member-append e.effect.revokes (revoked es) i, h e (inl refl), rest) refl

-- Whether a decision of a lifetime still lives: one for a cycle during that cycle, one with a date
-- before that date, and any other, or one whose date cannot be read, always.
abbrev pub IsLive : Context → Option Lifetime → Type 0
IsLive c none = Unit {0}
IsLive c (some work_item) = Unit {0}
IsLive c (some once) = Unit {0}
IsLive c (some (cycle i)) = c.cycle_id ≡ some i
IsLive c (some (until none)) = Unit {0}
IsLive c (some (until (some t))) = c.now < t

lifetime_over-IsLive : (c : Context) (l : Option Lifetime) → lifetime_over c l ≡ false ↔ IsLive c l
unfolding lifetime_over
lifetime_over-IsLive c none = (λ h. tt, λ h. refl)
lifetime_over-IsLive c (some work_item) = (λ h. tt, λ h. refl)
lifetime_over-IsLive c (some once) = (λ h. tt, λ h. refl)
lifetime_over-IsLive c (some (cycle i)) = (
  λ h. sym (same_opt_eq (some i) c.cycle_id (ground arith)),
  λ h. rw (h, (same_iff i i).1 refl) refl,
)
lifetime_over-IsLive c (some (until none)) = (λ h. tt, λ h. refl)
lifetime_over-IsLive c (some (until (some t))) = (λ h. ground (arith, h), λ h. ground (arith, h))

not_revoked :
    (records : List Record) (i : String)
    → member (revoked (events records)) i ≡ false
    → (r : Event) → IsIn (event r) records
    → member r.effect.revokes i ≡ false
not_revoked records i h r k = elim (Bool-cases (member r.effect.revokes i)) [
  | inl y ↦ cc (h, revokes_listed r (events records) i (events-IsIn records r k) y)
  | inr n ↦ n
]

-- A decision is in force exactly when it is recorded, no recorded decision lists it among those that
-- it revokes, and its lifetime is not over: a decision for a cycle lives during that cycle only, one
-- with a date before that date only, and any other without an end.
pub active_events_iff :
    (records : List Record) (c : Context) (e : Event)
    → IsIn e (active_events records c) ↔ (
        IsIn (event e) records
        × ((r : Event) → IsIn (event r) records → member r.effect.revokes e.id ≡ false)
        × IsLive c e.effect.lifetime)
active_events_iff records c e =
    let filtered = active_filter_iff records c e in
    let lives = lifetime_over-IsLive c e.effect.lifetime in
    (
      λ h.
          let k = filtered.0 h in
          (IsIn-events records e k.0, not_revoked records e.id k.1, lives.0 k.2),
      λ (k, never, live). filtered.1 (
        events-IsIn records e k,
        never_listed (events records) e.id (λ r i. never r (IsIn-events records r i)),
        lives.1 live,
      ),
    )

-- A revocation is final: from the record that revokes a decision on, whatever is recorded before or
-- after it, a revocation or an expiry of the revocation included, the decision is not in force.
pub revocation_final :
    (earlier later : List Record) (r e : Event) (c : Context)
    → member r.effect.revokes e.id ≡ true
    → ¬ IsIn e (active_events (earlier ++ event r ∷ later) c)
unfolding events
revocation_final earlier later r e c h k =
    let facts = (active_filter_iff (earlier ++ event r ∷ later) c e).0 k in
    cc (
      facts.1,
      ap (λ es. member (revoked es) e.id) (events-append earlier (event r ∷ later)),
      member-revoked r (events earlier) (events later) e.id h,
    )
