-- ===== src/Policy/EnvironmentSound.antt =====
-- A resolved operation acts on one environment, and on none that it does not name.
use ai_sdlc_framework.Prelude.{
  true, false, ◌||◌, List, [], ◌∷◌, ◌++◌, Option, none, some, same, same_opt, member, String,
  length, ◌≡◌, refl, ◌⊎◌, inl, inr, arith, ap, sym, Bool-cases, same_iff,
}
use ai_sdlc_framework.Policy.Environment.{
  Action, Mapping, is_canonical, add, add_all, add_labels, label_environments, unresolved,
  environments, own_environment, is_required, reasons, resolve_action_environment, normalized,
  is_empty,
}

member-append :
    (xs ys : List String) (s : String) → member (xs ++ ys) s ≡ (member xs s || member ys s)
member-append [] ys s = refl
member-append (x ∷ xs) ys s = ground (arith, member-append xs ys s)

member_of_same :
    (set : List String) (e x : String) → member set e ≡ true → same e x ≡ true → member set x ≡ true
member_of_same set e x y s = rw (← (same_iff e x).0 s) y

member-add : (set : List String) (e x : String) → member (add set e) x ≡ (member set x || same e x)
unfolding add
member-add set e x = elim (Bool-cases (member set e)) [
  | inl y ↦ rw y (ground (arith, member_of_same set e x y))
  | inr n ↦ rw (n, member-append set (e ∷ []) x) (ground arith)
]

member-add_all :
    (set es : List String) (x : String) → member (add_all set es) x ≡ (member set x || member es x)
unfolding add_all
member-add_all set [] x = ground arith
member-add_all set (e ∷ es) x =
    rw (member-add_all (add set e) es x, member-add set e x) (ground arith)

-- The sets only grow, and each label's environments are added.
add_labels_keeps :
    (ms : List Mapping) (a : Action) (set labels : List String) (x : String)
    → member set x ≡ true
    → member (add_labels ms a set labels) x ≡ true
unfolding add_labels
add_labels_keeps ms a set [] x h = h
add_labels_keeps ms a set (l ∷ labels) x h =
    add_labels_keeps ms a (add_all set (label_environments ms a l)) labels x
      (rw (member-add_all set (label_environments ms a l) x, h) refl)

add_labels_adds :
    (ms : List Mapping) (a : Action) (set labels : List String) (label x : String)
    → member labels label ≡ true
    → member (label_environments ms a label) x ≡ true
    → member (add_labels ms a set labels) x ≡ true
unfolding add_labels
add_labels_adds ms a set [] label x h k = cc
add_labels_adds ms a set (l ∷ labels) label x h k = elim (Bool-cases (same l label)) [
  | inl s ↦ add_labels_keeps ms a (add_all set (label_environments ms a l)) labels x (
      rw (member-add_all set (label_environments ms a l) x, (same_iff l label).0 s, k)
        (ground arith))
  | inr n ↦
      add_labels_adds ms a (add_all set (label_environments ms a l)) labels label x (ground arith) k
]

-- An implicit label that is not reported as unmapped has an environment.
resolved_label :
    (ms : List Mapping) (a : Action) (labels : List String) (label : String)
    → is_empty (unresolved ms a labels) ≡ true
    → member labels label ≡ true
    → is_empty (label_environments ms a label) ≡ false
unfolding unresolved
resolved_label ms a [] label h k = cc
resolved_label ms a (l ∷ labels) label h k = elim (Bool-cases (same l label)) [
  | inl s ↦ rw (← (same_iff l label).0 s) (ground arith)
  | inr n ↦ resolved_label ms a labels label (ground arith) (ground arith)
]

own_environment_adds :
    (o : Option String) (x : String)
    → o ≡ some x
    → is_canonical x ≡ true
    → member (own_environment o) x ≡ true
own_environment_adds none x h k = cc
own_environment_adds (some y) x h k = let e : y ≡ x = cc in rw (e, k) (ground (arith, same_iff x x))

-- What a required and resolved operation satisfies.
single :
    (ms : List Mapping) (a : Action)
    → (resolve_action_environment ms a).resolved ≡ true
    → is_required a ≡ true
    → (length (environments ms a) ≡ 1)
      × (is_empty (unresolved ms a a.implicit_environments) ≡ true)
      × (same_opt a.environment (some "local") ≡ false)
unfolding resolve_action_environment reasons
single ms a h r = ground arith

singleton : (es : List String) → length es ≡ 1 → (e : String) × (es ≡ e ∷ [])
singleton [] h = absurd (omega arith)
singleton (e ∷ []) h = (e, refl)
singleton (e ∷ f ∷ es) h = absurd (omega arith)

only : (es : List String) (e x : String) → es ≡ e ∷ [] → member es x ≡ true → x ≡ e
only es e x h k = sym ((same_iff e x).0 (ground (arith, ap (λ (l : List String). member l x) h)))

-- The environments of a label are in the set, wherever the action names the label.
label_in_environments :
    (ms : List Mapping) (a : Action) (label x : String)
    → (member a.implicit_environments label ≡ true) ⊎ (member a.stages label ≡ true)
    → member (label_environments ms a label) x ≡ true
    → member (environments ms a) x ≡ true
unfolding environments
label_in_environments ms a label x (inl i) k =
    add_labels_keeps ms a _ a.stages x
      (add_labels_adds ms a (own_environment a.environment) a.implicit_environments label x i k)
label_in_environments ms a label x (inr s) k = add_labels_adds ms a _ a.stages label x s k

own_in_environments :
    (ms : List Mapping) (a : Action) (x : String)
    → a.environment ≡ some x
    → is_canonical x ≡ true
    → member (environments ms a) x ≡ true
unfolding environments
own_in_environments ms a x h k =
    add_labels_keeps ms a _ a.stages x
      (add_labels_keeps ms a _ a.implicit_environments x (own_environment_adds a.environment x h k))

-- A resolved operation that needs an environment acts on exactly one: the normalized action carries
-- it, it is not local, a canonical environment that the action names is that one, every label or
-- stage that is canonical or mapped stands for that one only, and each implicit label stands for an
-- environment.
pub resolved_single :
    (ms : List Mapping) (a : Action)
    → (resolve_action_environment ms a).resolved ≡ true
    → is_required a ≡ true
    → (e : String) × (environments ms a ≡ e ∷ [])
      × ((resolve_action_environment ms a).action.environment ≡ some e)
      × (same_opt a.environment (some "local") ≡ false)
      × ((x : String) → a.environment ≡ some x → is_canonical x ≡ true → x ≡ e)
      × ((label x : String)
          → (member a.implicit_environments label ≡ true) ⊎ (member a.stages label ≡ true)
          → member (label_environments ms a label) x ≡ true
          → x ≡ e)
      × ((label : String)
          → member a.implicit_environments label ≡ true
          → is_empty (label_environments ms a label) ≡ false)
unfolding resolve_action_environment
resolved_single ms a h r =
    let facts = single ms a h r in
    let one = singleton (environments ms a) facts.0 in
    (
      one.0,
      one.1,
      ap (λ es. (normalized a es).environment) one.1,
      facts.2,
      λ x i k. only (environments ms a) one.0 x one.1 (own_in_environments ms a x i k),
      λ label x i k.
          only (environments ms a) one.0 x one.1 (label_in_environments ms a label x i k),
      λ label i. resolved_label ms a a.implicit_environments label facts.1 i,
    )
