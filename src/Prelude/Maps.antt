-- ===== src/Prelude/Maps.antt =====
-- JavaScript objects and maps from strings: an association list, where a key is set in its place.
use Prim.Native.String.{String}
use Prim.Native.Nat.{ℕ, max}
use mathlib.Core.Bool.{false}
use mathlib.Core.Path.{◌≡◌, refl}
use mathlib.Core.Logic.{inl, inr}
use mathlib.Core.Option.{Option, none, some}
use mathlib.Core.List.{List, [], ◌∷◌}
use ai_sdlc_framework.Prelude.Tests.{if◌then◌else◌, Bool-cases}
use ai_sdlc_framework.Prelude.Strings.{same, same_iff}

module _ {ℓ} {A : Type ℓ} where
  -- `map[key]`
  abbrev pub lookup : List (String × A) → String → Option A
  lookup [] i = none
  lookup ((j, a) ∷ m) i = if same j i then some a else lookup m i

  -- `map[key] = value`
  abbrev pub assign : List (String × A) → String → A → List (String × A)
  assign [] i a = (i, a) ∷ []
  assign ((j, b) ∷ m) i a = if same j i then (j, a) ∷ m else (j, b) ∷ assign m i a

  -- `delete map[key]`
  abbrev pub remove : List (String × A) → String → List (String × A)
  remove [] i = []
  remove ((j, b) ∷ m) i = let rest = remove m i in if same j i then rest else (j, b) ∷ rest

  pub lookup-assign_self :
      (m : List (String × A)) (i : String) (a : A) → lookup (assign m i a) i ≡ some a
  lookup-assign_self [] i a = rw ((same_iff i i).1 refl) refl
  lookup-assign_self ((j, b) ∷ m) i a = elim (Bool-cases (same j i)) [
    | inl y ↦ rw (y, y) refl
    | inr n ↦ rw (n, n) (lookup-assign_self m i a)
  ]

  pub lookup-remove_self : (m : List (String × A)) (i : String) → lookup (remove m i) i ≡ none
  lookup-remove_self [] i = refl
  lookup-remove_self ((j, b) ∷ m) i = elim (Bool-cases (same j i)) [
    | inl y ↦ rw y (lookup-remove_self m i)
    | inr n ↦ rw (n, n) (lookup-remove_self m i)
  ]

  pub lookup-assign_other :
      (m : List (String × A)) (i j : String) (a : A)
      → same i j ≡ false
      → lookup (assign m i a) j ≡ lookup m j
  lookup-assign_other [] i j a h = rw h refl
  lookup-assign_other ((k, b) ∷ m) i j a h = elim (Bool-cases (same k i)) [
    | inl y ↦ let other : same k j ≡ false = rw ((same_iff k i).0 y) h in rw (y, other) refl
    | inr n ↦ elim (Bool-cases (same k j)) [
      | inl z ↦ rw (n, z) refl
      | inr z ↦ rw (n, z) (lookup-assign_other m i j a h)
    ]
  ]

  pub lookup-remove_other :
      (m : List (String × A)) (i j : String) → same i j ≡ false → lookup (remove m i) j ≡ lookup m j
  lookup-remove_other [] i j h = refl
  lookup-remove_other ((k, b) ∷ m) i j h = elim (Bool-cases (same k i)) [
    | inl y ↦
        let other : same k j ≡ false = rw ((same_iff k i).0 y) h in
        rw (y, other) (lookup-remove_other m i j h)
    | inr n ↦ elim (Bool-cases (same k j)) [
      | inl z ↦ rw (n, z) refl
      | inr z ↦ rw (n, z) (lookup-remove_other m i j h)
    ]
  ]

-- `Math.max(0, ...values)`
abbrev pub max_of : List ℕ → ℕ
max_of [] = 0
max_of (n ∷ ns) = max n (max_of ns)

-- `value ?? fallback`
abbrev pub otherwise {ℓ} : {A : Type ℓ} → Option A → A → A
otherwise none b = b
otherwise (some a) b = a
