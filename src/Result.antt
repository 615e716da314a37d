-- ===== src/Result.antt =====
-- `SdlcError` and `requireThat` of src/core.mjs: a call that throws is a value that carries the
-- error's code. The messages are left out.
use ai_sdlc_framework.Prelude.{Bool, true, false, ◌≡◌, refl}

-- The codes that the modelled functions throw.
pub data Code : Type 0 where
  input budget inventory evidence capacity hook path binding operation uncertain id_conflict
        authority gate stale adapter conflict coverage :
      Code

pub data Result {ℓ} (A : Type ℓ) : Type ℓ where
  ok : A → Result A
  fail : Code → Result A

infixl 5 ◌>>=◌ ◌>>◌
abbrev pub ◌>>=◌ {ℓ κ} : {A : Type ℓ} {B : Type κ} → Result A → (A → Result B) → Result B
ok a >>= f = f a
fail c >>= f = fail c

abbrev pub ◌>>◌ {ℓ} : {B : Type ℓ} → Result (Unit {0}) → Result B → Result B
m >> k = m >>= λ _. k

-- `requireThat(condition, code, …)`
abbrev pub require_that : Bool → Code → Result (Unit {0})
require_that true c = ok tt
require_that false c = fail c

-- A chain that returns has returned at its first call.
pub bind_ok {ℓ κ} :
    {A : Type ℓ} {B : Type κ} (x : Result A) (f : A → Result B) {b : B}
    → (x >>= f) ≡ ok b
    → (a : A) × (x ≡ ok a) × (f a ≡ ok b)
bind_ok (ok a) f h = (a, refl, h)
bind_ok (fail e) f h = cc

pub require_ok {ℓ} :
    {A : Type ℓ} (b : Bool) (c : Code) (m : Result A) {a : A}
    → (require_that b c >> m) ≡ ok a
    → (b ≡ true) × (m ≡ ok a)
require_ok true c m h = (refl, h)
require_ok false c m h = cc
