-- ===== src/History/Newest.antt =====
-- The first loop of `reduceTestHistory` against a reference definition.
use mathlib.Core.Path.{subst}
use Prim.Native.Nat.{max}
use ai_sdlc_framework.Prelude.{
  ℕ, ◌<◌, Bool, true, false, List, [], ◌∷◌, ◌++◌, Option, none, some, if◌then◌else◌, lookup, assign,
  filter, max_of, otherwise, ltb, ◌==◌, ==_iff, String, ◌≡◌, ◌⊎◌, inl, inr, refl, sym, ap, ◌∙◌,
  arith, Bool-cases, Option-cases,
}
use ai_sdlc_framework.Result.{ok, id_conflict, require_ok}
use ai_sdlc_framework.History.Reduce.{
  TestObservation, newest_group, group_from, newest_from, agrees_with, is_known_id,
}

-- The eligible observations, the first of each identity.
pub candidates : List (String × String) → List TestObservation → List TestObservation
candidates ids [] = []
candidates ids (e ∷ es) =
    let skipped = candidates ids es in
    let rest = candidates (assign ids e.id e.digest) es in
    if is_known_id (lookup ids e.id) then skipped else if e.is_eligible then e ∷ rest else rest

abbrev pub time_of : TestObservation → ℕ
time_of e = otherwise e.source_time 0

abbrev pub times : List TestObservation → List ℕ
times [] = []
times (e ∷ es) = time_of e ∷ times es

-- The observations at a time.
abbrev pub at_time : ℕ → TestObservation → Bool
at_time t e = time_of e == t

abbrev group_of : Option ℕ → List TestObservation → List TestObservation → List TestObservation
group_of newest group [] = group
group_of newest group (e ∷ es) =
    group_of (some (newest_from newest (time_of e))) (group_from newest group (time_of e) e) es

timed_step :
    (ids : List (String × String)) (newest : Option ℕ) (group : List TestObservation)
    (e : TestObservation) (es : List TestObservation) {r : List TestObservation}
    → is_known_id (lookup ids e.id) ≡ false
    → e.is_eligible ≡ true
    → newest_group ids newest group (e ∷ es) ≡ ok r
    → newest_group
        (assign ids e.id e.digest)
        (some (newest_from newest (time_of e)))
        (group_from newest group (time_of e) e)
        es
      ≡ ok r
unfolding newest_group
timed_step ids newest group e es {r} new eligible h = elim (Option-cases e.source_time) [
  | inl missing ↦ cc (
      rw (new, eligible, missing) at
        (require_ok (agrees_with (lookup ids e.id) e) id_conflict _ h).1)
  | inr found ↦
      subst
        (λ t.
          newest_group (assign ids e.id e.digest) (some (newest_from newest t))
            (group_from newest group t e) es
          ≡ ok r)
        (sym (ap (λ s. otherwise s 0) found.1))
        (rw (new, eligible, found.1) at
          (require_ok (agrees_with (lookup ids e.id) e) id_conflict _ h).1)
]

if_true : (b : Bool) (x y : List TestObservation) → b ≡ true → (if b then x else y) ≡ x
if_true b x y h = rw h refl

candidates_keep :
    (ids : List (String × String)) (e : TestObservation) (es : List TestObservation)
    → is_known_id (lookup ids e.id) ≡ false
    → e.is_eligible ≡ true
    → candidates ids (e ∷ es) ≡ e ∷ candidates (assign ids e.id e.digest) es
unfolding candidates
candidates_keep ids e es new y = rw new (
    if_true e.is_eligible (e ∷ candidates (assign ids e.id e.digest) es)
      (candidates (assign ids e.id e.digest) es) y)

read_candidates :
    (ids : List (String × String)) (newest : Option ℕ) (group es : List TestObservation)
    {r : List TestObservation}
    → newest_group ids newest group es ≡ ok r
    → group_of newest group (candidates ids es) ≡ r
unfolding newest_group candidates
read_candidates ids newest group [] h = ground (arith, h)
read_candidates ids newest group (e ∷ es) {r} h =
    let checked = (require_ok (agrees_with (lookup ids e.id) e) id_conflict _ h).1 in
    elim (Bool-cases (is_known_id (lookup ids e.id))) [
      | inl known ↦ rw known (read_candidates ids newest group es (rw known at checked))
      | inr new ↦ elim (Bool-cases e.is_eligible) [
        | inl y ↦ rw (candidates_keep ids e es new y) (
            read_candidates (assign ids e.id e.digest) (some (newest_from newest (time_of e)))
              (group_from newest group (time_of e) e) es (timed_step ids newest group e es new y h))
        | inr n ↦
            rw (new, n)
              (read_candidates (assign ids e.id e.digest) newest group es (rw (new, n) at checked))
      ]
    ]

above-max : (t : ℕ) (cs : List TestObservation) → max_of (times cs) < t → filter (at_time t) cs ≡ []
above-max t [] h = refl
above-max t (e ∷ es) h =
    let other : at_time t e ≡ false = different (time_of e) t (omega (arith, h)) in
    rw other (above-max t es (omega (arith, h)))
  where
    different : (a b : ℕ) → a < b → (a == b) ≡ false
    different a b l = ground arith

append_nil : (as_ : List TestObservation) → as_ ++ [] ≡ as_
append_nil [] = refl
append_nil (e ∷ es) = ap (λ l. e ∷ l) (append_nil es)

append_assoc : (as_ bs cs : List TestObservation) → (as_ ++ bs) ++ cs ≡ as_ ++ (bs ++ cs)
append_assoc [] bs cs = refl
append_assoc (e ∷ es) bs cs = ap (λ l. e ∷ l) (append_assoc es bs cs)

order :
    (t u : ℕ)
    → (ltb t u ≡ true)
      ⊎ (((ltb t u ≡ false) × ((t == u) ≡ true))
          ⊎ ((ltb t u ≡ false) × ((t == u) ≡ false) × (u < t)))
order t u = ground arith

-- The loop from a group of a time on, where the greatest time that follows is `m`.
abbrev group_at_end : ℕ → List TestObservation → ℕ → List TestObservation → List TestObservation
group_at_end t group m cs =
    if ltb t m then filter (at_time m) cs else group ++ filter (at_time t) cs

max_right : (u m : ℕ) → ltb u m ≡ true → (max u m ≡ m) × ((u == m) ≡ false)
max_right u m h = (ground arith, ground arith)

max_left : (u m : ℕ) → ltb u m ≡ false → max u m ≡ u
max_left u m h = ground arith

same_time : (u : ℕ) → (u == u) ≡ true
same_time u = ground arith

lower_first : (a b c : ℕ) → ltb a b ≡ true → ltb b c ≡ true → ltb a c ≡ true
lower_first a b c h k = ground arith

-- A later observation starts the group again.
restart :
    (t : ℕ) (group : List TestObservation) (e : TestObservation) (es : List TestObservation)
    (m n : ℕ)
    → n ≡ max (time_of e) m
    → ltb t (time_of e) ≡ true
    → group_at_end (time_of e) (e ∷ []) m es ≡ group_at_end t group n (e ∷ es)
restart t group e es m n p later = elim (Bool-cases (ltb (time_of e) m)) [
  | inl below ↦
      let right = max_right (time_of e) m below in
      subst (λ k. group_at_end (time_of e) (e ∷ []) m es ≡ group_at_end t group k (e ∷ es))
        (sym (p ∙ right.0)) (rw (below, lower_first t (time_of e) m later below, right.1) refl)
  | inr top ↦
      subst (λ k. group_at_end (time_of e) (e ∷ []) m es ≡ group_at_end t group k (e ∷ es))
        (sym (p ∙ max_left (time_of e) m top)) (rw (top, later, same_time (time_of e)) refl)
]

-- An observation of the same time joins it.
join_group :
    (t : ℕ) (group : List TestObservation) (e : TestObservation) (es : List TestObservation)
    (m n : ℕ)
    → n ≡ max (time_of e) m
    → time_of e ≡ t
    → group_at_end t (group ++ (e ∷ [])) m es ≡ group_at_end t group n (e ∷ es)
join_group t group e es m n p now = elim (Bool-cases (ltb t m)) [
  | inl below ↦
      let right = max_right (time_of e) m (ap (λ u. ltb u m) now ∙ below) in
      subst (λ k. group_at_end t (group ++ (e ∷ [])) m es ≡ group_at_end t group k (e ∷ es))
        (sym (p ∙ right.0)) (rw (below, right.1) refl)
  | inr top ↦
      let left : n ≡ t = p ∙ max_left (time_of e) m (ap (λ u. ltb u m) now ∙ top) ∙ now in
      let here : at_time t e ≡ true = ap (λ u. u == t) now ∙ same_time t in
      subst (λ k. group_at_end t (group ++ (e ∷ [])) m es ≡ group_at_end t group k (e ∷ es))
        (sym left)
        (rw (top, not_below t, here) (append_assoc group (e ∷ []) (filter (at_time t) es)))
]
  where
    not_below : (a : ℕ) → ltb a a ≡ false
    not_below a = ground arith

-- An earlier observation is left out.
leave_out :
    (t : ℕ) (group : List TestObservation) (e : TestObservation) (es : List TestObservation)
    (m n : ℕ)
    → n ≡ max (time_of e) m
    → time_of e < t
    → group_at_end t group m es ≡ group_at_end t group n (e ∷ es)
leave_out t group e es m n p before = elim (Bool-cases (ltb t m)) [
  | inl below ↦
      let right = max_right (time_of e) m (above (time_of e) t m before below) in
      subst (λ k. group_at_end t group m es ≡ group_at_end t group k (e ∷ es)) (sym (p ∙ right.0))
        (rw (below, right.1) refl)
  | inr top ↦
      let other : at_time t e ≡ false = different (time_of e) t before in
      let outside : ltb t n ≡ false = within (time_of e) t m n p before top in
      rw (top, outside, other) refl
]
  where
    above : (a b c : ℕ) → a < b → ltb b c ≡ true → ltb a c ≡ true
    above a b c h k = ground arith

    different : (a b : ℕ) → a < b → (a == b) ≡ false
    different a b l = ground arith

    within : (a b c d : ℕ) → d ≡ max a c → a < b → ltb b c ≡ false → ltb b d ≡ false
    within a b c d q h k = ground arith

group_from_time :
    (t : ℕ) (group cs : List TestObservation)
    → group_of (some t) group cs ≡ group_at_end t group (max_of (times cs)) cs
group_from_time t group [] = rw (never_below t) (sym (append_nil group))
  where
    never_below : (a : ℕ) → ltb a 0 ≡ false
    never_below a = ground arith
group_from_time t group (e ∷ es) = elim (order t (time_of e)) [
  | inl later ↦ rw later (
      group_from_time (time_of e) (e ∷ []) es
      ∙ restart t group e es (max_of (times es)) (max_of (times (e ∷ es))) refl later)
  | inr (inl now) ↦
      rw (now.0, now.1)
        (group_from_time t (group ++ (e ∷ [])) es
          ∙ join_group t group e es (max_of (times es)) (max_of (times (e ∷ es))) refl
              (sym ((==_iff t (time_of e)).0 now.1)))
  | inr (inr before) ↦
      rw (before.0, before.1)
        (group_from_time t group es
          ∙ leave_out t group e es (max_of (times es)) (max_of (times (e ∷ es))) refl before.2)
]

restart_any :
    (e : TestObservation) (es : List TestObservation) (m n : ℕ)
    → n ≡ max (time_of e) m
    → group_at_end (time_of e) (e ∷ []) m es ≡ filter (at_time n) (e ∷ es)
restart_any e es m n p = elim (Bool-cases (ltb (time_of e) m)) [
  | inl below ↦
      let right = max_right (time_of e) m below in
      subst (λ k. group_at_end (time_of e) (e ∷ []) m es ≡ filter (at_time k) (e ∷ es))
        (sym (p ∙ right.0)) (rw (below, right.1) refl)
  | inr top ↦
      subst (λ k. group_at_end (time_of e) (e ∷ []) m es ≡ filter (at_time k) (e ∷ es))
        (sym (p ∙ max_left (time_of e) m top)) (rw (top, same_time (time_of e)) refl)
]

-- The group that the first loop of a reduction returns is, in their order, the eligible observations
-- whose time is the greatest of the eligible observations' times, where of each identity only the
-- first counts.
pub newest_group_lem :
    (history : List TestObservation) {group : List TestObservation}
    → newest_group [] none [] history ≡ ok group
    → group ≡ filter (at_time (max_of (times (candidates [] history)))) (candidates [] history)
newest_group_lem history h =
    sym (read_candidates [] none [] history h) ∙ from_start (candidates [] history)
  where
    from_start :
        (cs : List TestObservation) → group_of none [] cs ≡ filter (at_time (max_of (times cs))) cs
    from_start [] = refl
    from_start (e ∷ es) =
        group_from_time (time_of e) (e ∷ []) es
        ∙ restart_any e es (max_of (times es)) (max_of (times (e ∷ es))) refl
