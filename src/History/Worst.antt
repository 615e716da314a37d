-- ===== src/History/Worst.antt =====
-- What `reduceTestHistory` of src/validation-evidence.mjs selects.
use mathlib.Core.Path.{subst}
use ai_sdlc_framework.Prelude.{
  ℕ, ◌≤◌, Bool, true, false, ◌&&◌, ◌||◌, List, [], ◌∷◌, none, some, if◌then◌else◌, same, same_iff,
  lookup, assign, lookup-assign_self, lookup-assign_other, ltb, ◌==◌, String, IsIn, ◌≡◌, inl, inr,
  refl, sym, ap, ◌∙◌, arith, Bool-cases, Option-cases,
}
use ai_sdlc_framework.Result.{ok}
use ai_sdlc_framework.History.Reduce.{
  TestObservation, rank, is_direct, producer_of, replaces, wins, by_producer, sorts_before,
  last_sorted, newest_group, reduce_test_history,
}

replaced_rank :
    (e v : TestObservation)
    → is_direct e ≡ false
    → replaces e v ≡ true
    → rank v.status ≤ rank e.status
unfolding replaces
replaced_rank e v d h = ranked (rank v.status) (rank e.status) _ (rw d at h)
  where
    ranked : (a b : ℕ) (t : Bool) → (ltb a b || (b == a && t)) ≡ true → a ≤ b
    ranked a b t k = ground arith

kept_rank :
    (e v : TestObservation)
    → is_direct e ≡ false
    → replaces e v ≡ false
    → rank e.status ≤ rank v.status
unfolding replaces
kept_rank e v d h = ranked (rank v.status) (rank e.status) _ (rw d at h)
  where
    ranked : (a b : ℕ) (t : Bool) → (ltb a b || (b == a && t)) ≡ false → b ≤ a
    ranked a b t k = ground arith

-- The map has, for the producer of an observation, one that is at least as bad.
abbrev Covers : List (String × TestObservation) → TestObservation → Type 0
Covers m f =
    (v : TestObservation) × (lookup m (producer_of f) ≡ some v) × (rank f.status ≤ rank v.status)

abbrev taken : List (String × TestObservation) → TestObservation → List (String × TestObservation)
taken m e = if wins (lookup m (producer_of e)) e then assign m (producer_of e) e else m

taken_won :
    (m : List (String × TestObservation)) (e : TestObservation)
    → wins (lookup m (producer_of e)) e ≡ true
    → taken m e ≡ assign m (producer_of e) e
taken_won m e h = rw h refl

taken_lost :
    (m : List (String × TestObservation)) (e : TestObservation)
    → wins (lookup m (producer_of e)) e ≡ false
    → taken m e ≡ m
taken_lost m e h = rw h refl

assigned-Covers :
    (m : List (String × TestObservation)) (e f : TestObservation)
    → producer_of e ≡ producer_of f
    → rank f.status ≤ rank e.status
    → Covers (assign m (producer_of e) e) f
assigned-Covers m e f p h = (
  e,
  ap (λ k. lookup (assign m (producer_of e) e) k) (sym p) ∙ lookup-assign_self m (producer_of e) e,
  h,
)

taken-Covers_self :
    (m : List (String × TestObservation)) (e : TestObservation)
    → is_direct e ≡ false
    → Covers (taken m e) e
taken-Covers_self m e d = elim (Option-cases (lookup m (producer_of e))) [
  | inl empty ↦
      subst (λ n. Covers n e) (sym (taken_won m e (ap (λ o. wins o e) empty)))
        (assigned-Covers m e e refl (omega arith))
  | inr found ↦ elim (Bool-cases (replaces e found.0)) [
    | inl y ↦
        subst (λ n. Covers n e) (sym (taken_won m e (ap (λ o. wins o e) found.1 ∙ y)))
          (assigned-Covers m e e refl (omega arith))
    | inr n ↦
        subst (λ k. Covers k e) (sym (taken_lost m e (ap (λ o. wins o e) found.1 ∙ n)))
          ((found.0, found.1, kept_rank e found.0 d n))
  ]
]

-- An observation of the same producer replaces only one that is no worse.
won_rank :
    (m : List (String × TestObservation)) (e v : TestObservation)
    → is_direct e ≡ false
    → lookup m (producer_of e) ≡ some v
    → wins (lookup m (producer_of e)) e ≡ true
    → rank v.status ≤ rank e.status
won_rank m e v d found won = replaced_rank e v d (sym (ap (λ o. wins o e) found) ∙ won)

taken-Covers :
    (m : List (String × TestObservation)) (e f : TestObservation)
    → is_direct e ≡ false
    → Covers m f
    → Covers (taken m e) f
taken-Covers m e f d c = elim (Bool-cases (wins (lookup m (producer_of e)) e)) [
  | inr lost ↦ subst (λ n. Covers n f) (sym (taken_lost m e lost)) c
  | inl won ↦
      subst (λ n. Covers n f) (sym (taken_won m e won))
        (elim (Bool-cases (same (producer_of e) (producer_of f))) [
          | inl y ↦
              let p = (same_iff (producer_of e) (producer_of f)).0 y in
              let below = won_rank m e c.0 d (ap (lookup m) p ∙ c.1) won in
              assigned-Covers m e f p (omega (arith, below, c.2))
          | inr n ↦ (c.0, lookup-assign_other m (producer_of e) (producer_of f) e n ∙ c.1, c.2)
        ])
]

-- All observations of a list come from an operation or an event.
abbrev pub IsProduced : List TestObservation → Type 0
IsProduced es = (e : TestObservation) → IsIn e es → is_direct e ≡ false

kept-Covers :
    (m : List (String × TestObservation)) (es : List TestObservation) (f : TestObservation)
    → IsProduced es
    → Covers m f
    → Covers (by_producer m es) f
unfolding by_producer
kept-Covers m [] f all c = c
kept-Covers m (e ∷ es) f all c =
    kept-Covers (taken m e) es f (λ g i. all g (inr i)) (taken-Covers m e f (all e (inl refl)) c)

by_producer-Covers :
    (m : List (String × TestObservation)) (es : List TestObservation) (f : TestObservation)
    → IsProduced es
    → IsIn f es
    → Covers (by_producer m es) f
unfolding by_producer
by_producer-Covers m [] f all h = elim h [ ]
by_producer-Covers m (e ∷ es) f all (inl here) =
    kept-Covers (taken m e) es f (λ g i. all g (inr i))
      (subst (Covers (taken m e)) (sym here) (taken-Covers_self m e (all e (inl refl))))
by_producer-Covers m (e ∷ es) f all (inr later) =
    by_producer-Covers (taken m e) es f (λ g i. all g (inr i)) later

sorts_rank :
    (a b : TestObservation)
    → (sorts_before a b ≡ true → rank a.status ≤ rank b.status)
      × (sorts_before a b ≡ false → rank b.status ≤ rank a.status)
sorts_rank a b =
    (λ h. below (rank a.status) (rank b.status) _ h, λ h. above (rank a.status) (rank b.status) _ h)
  where
    below : (m n : ℕ) (t : Bool) → (ltb m n || (m == n && t)) ≡ true → m ≤ n
    below m n t k = ground arith

    above : (m n : ℕ) (t : Bool) → (ltb m n || (m == n && t)) ≡ false → n ≤ m
    above m n t k = ground arith

better_rank :
    (b e : TestObservation)
    → (rank b.status ≤ rank (if sorts_before b e then e else b).status)
      × (rank e.status ≤ rank (if sorts_before b e then e else b).status)
better_rank b e = elim (Bool-cases (sorts_before b e)) [
  | inl y ↦
      let t = if_then e b y in
      (
        omega (arith, ap (λ x. rank x.status) t, (sorts_rank b e).0 y),
        omega (arith, ap (λ x. rank x.status) t),
      )
  | inr n ↦
      let t = if_else e b n in
      (
        omega (arith, ap (λ x. rank x.status) t),
        omega (arith, ap (λ x. rank x.status) t, (sorts_rank b e).1 n),
      )
]
  where
    if_then : {c : Bool} (x y : TestObservation) → c ≡ true → (if c then x else y) ≡ x
    if_then x y h = rw h refl

    if_else : {c : Bool} (x y : TestObservation) → c ≡ false → (if c then x else y) ≡ y
    if_else x y h = rw h refl

entry_rank :
    (j : String) (e : TestObservation) (m : List (String × TestObservation)) (z : TestObservation)
    → rank e.status ≤ rank z.status
    → ((k : String) (v : TestObservation) → lookup m k ≡ some v → rank v.status ≤ rank z.status)
    → (k : String) (v : TestObservation) → lookup ((j, e) ∷ m) k ≡ some v
    → rank v.status ≤ rank z.status
entry_rank j e m z first rest k v h = elim (Bool-cases (same j k)) [
  | inl y ↦ omega (arith, ap (λ x. rank x.status) (some_same e v (rw y at h)), first)
  | inr n ↦ rest k v (rw n at h)
]
  where
    some_same : (x y : TestObservation) → some x ≡ some y → x ≡ y
    some_same x y q = cc

-- The last of the sorted observations is at least as bad as each.
last_from :
    (b : TestObservation) (m : List (String × TestObservation))
    → (z : TestObservation) × (last_sorted (some b) m ≡ some z)
      × (rank b.status ≤ rank z.status)
      × ((k : String) (v : TestObservation) → lookup m k ≡ some v → rank v.status ≤ rank z.status)
unfolding last_sorted
last_from b [] = (b, refl, omega arith, λ k v h. cc)
last_from b ((j, e) ∷ m) =
    let better = if sorts_before b e then e else b in
    let rest = last_from better m in
    let both = better_rank b e in
    (
      rest.0,
      rest.1,
      omega (arith, both.0, rest.2),
      λ k v h. entry_rank j e m rest.0 (omega (arith, both.1, rest.2)) rest.3 k v h,
    )

last-Covers :
    (m : List (String × TestObservation)) (f : TestObservation)
    → Covers m f
    → (z : TestObservation) × (last_sorted none m ≡ some z) × (rank f.status ≤ rank z.status)
unfolding last_sorted
last-Covers [] f c = cc c.1
last-Covers ((j, e) ∷ m) f c =
    let rest = last_from e m in
    (
      rest.0,
      rest.1,
      omega (arith, c.2, entry_rank j e m rest.0 rest.2 rest.3 (producer_of f) c.0 c.1),
    )

-- Where every observation of the newest group comes from an operation or an event, a reduction selects
-- an observation that is at least as bad as each of the group: no failure is hidden by a result of the
-- same time.
pub reduction_worst :
    (history : List TestObservation) {group : List TestObservation} (f : TestObservation)
    → newest_group [] none [] history ≡ ok group
    → IsProduced group
    → IsIn f group
    → (z : TestObservation) × (reduce_test_history history ≡ ok (some z))
      × (rank f.status ≤ rank z.status)
unfolding reduce_test_history
reduction_worst history {group} f read produced member_ =
    let last =
      last-Covers (by_producer [] group) f (by_producer-Covers [] group f produced member_) in
    (last.0, rw read (ap ok last.1), last.2)
