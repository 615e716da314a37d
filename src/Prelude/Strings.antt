-- ===== src/Prelude/Strings.antt =====
-- JavaScript strings that the program only compares: `===`, truthiness and `includes`.
use Prim.Native.String.{String}
use text.Mathlib.Text.{◌==◌ as str_eq}
use text.Mathlib.TextEquality.{eq_iff}
use mathlib.Core.Path.{◌≡◌, refl}
use mathlib.Core.Logic.{◌↔◌}
use mathlib.Core.Bool.{Bool, true, false, not, ◌||◌}
use mathlib.Core.Option.{Option, none, some}
use mathlib.Core.List.{List, [], ◌∷◌}
use native.Mathlib.Omega.{arith}

-- `===` on strings
abbrev pub same : String → String → Bool
same s t = str_eq s t

pub same_iff : (s t : String) → (same s t ≡ true) ↔ (s ≡ t)
same_iff s t = eq_iff s t

-- `===` where either side may be undefined
abbrev pub same_opt : Option String → Option String → Bool
same_opt none none = true
same_opt none (some t) = false
same_opt (some s) none = false
same_opt (some s) (some t) = same s t

pub same_opt_eq : (s t : Option String) → same_opt s t ≡ true → s ≡ t
same_opt_eq none none h = refl
same_opt_eq none (some t) h = ground arith
same_opt_eq (some s) none h = ground arith
same_opt_eq (some s) (some t) h = ground (arith, eq_iff s t)

-- `Boolean(value)`: undefined and the empty string are false
abbrev pub truthy : Option String → Bool
truthy none = false
truthy (some s) = not (same s "")

abbrev pub is_defined {ℓ} : {A : Type ℓ} → Option A → Bool
is_defined none = false
is_defined (some a) = true

-- `list.includes(value)`
abbrev pub member : List String → String → Bool
member [] s = false
member (t ∷ ts) s = same t s || member ts s

abbrev pub member_opt : List String → Option String → Bool
member_opt ts none = false
member_opt ts (some s) = member ts s
