-- ===== src/Results/Unused.antt =====
-- Which earlier results stand in the way of a result, for `validateOperationResult` of
-- src/external-results.mjs.
use ai_sdlc_framework.Prelude.{
  Bool, true, false, List, [], ◌∷◌, some, any, String, ◌≡◌, ◌≢◌, ◌⊎◌, inl, inr, refl, arith,
  Bool-cases, ap, ◌∙◌, IsIn, same, same_iff,
}
use ai_sdlc_framework.Results.Observed.{Dispatch}
use ai_sdlc_framework.Results.Records.{Intended, PriorResult}
use ai_sdlc_framework.Results.Validate.{belongs_to, is_immutable_family}

-- The results of these outcomes have an identity of their own.
abbrev pub HasOwnIdentity : Intended → Type 0
HasOwnIdentity i =
    IsIn i.family ("execution" ∷ "test" ∷ "artifact" ∷ "deployment" ∷ "merge" ∷ "notification" ∷ [])
    ⊎ (i.action_class ≡ "pr-create")

-- No earlier result of another dispatch has the causal key, and, where results have an identity of their
-- own, none is of the same resource.
abbrev pub IsUnused : List PriorResult → Intended → Dispatch → String → Type 0
IsUnused prior i d key =
    (p : PriorResult)
    → IsIn p prior
    → p.dispatch_id ≢ d.id
    → (p.causal_key ≢ some key) × (HasOwnIdentity i → p.same_resource ≡ false)

immutable_family : (i : Intended) → HasOwnIdentity i → is_immutable_family i ≡ true
immutable_family i (inl (inl x)) = rw x refl
immutable_family i (inl (inr (inl x))) = rw x refl
immutable_family i (inl (inr (inr (inl x)))) = rw x refl
immutable_family i (inl (inr (inr (inr (inl x))))) = rw x refl
immutable_family i (inl (inr (inr (inr (inr (inl x)))))) = rw x refl
immutable_family i (inl (inr (inr (inr (inr (inr (inl x))))))) = rw x refl
immutable_family i (inl (inr (inr (inr (inr (inr (inr k))))))) = elim k [ ]
immutable_family i (inr x) = rw x (ground arith)

none_belongs :
    (test : PriorResult → Bool) (prior : List PriorResult) (p : PriorResult)
    → any test prior ≡ false
    → IsIn p prior
    → test p ≡ false
none_belongs test [] p h k = elim k [ ]
none_belongs test (q ∷ qs) p h (inl x) = ap test x ∙ ground (arith, h)
none_belongs test (q ∷ qs) p h (inr k) = none_belongs test qs p (ground (arith, h)) k

foreign_result :
    (d : Dispatch) (i : Intended) (key : String) (p : PriorResult)
    → belongs_to d i (some key) p ≡ false
    → p.dispatch_id ≢ d.id
    → (p.causal_key ≢ some key) × (HasOwnIdentity i → p.same_resource ≡ false)
unfolding belongs_to
foreign_result d i key p h other = elim (Bool-cases (same p.dispatch_id d.id)) [
  | inl y ↦ absurd (other ((same_iff p.dispatch_id d.id).0 y))
  | inr n ↦ (
    λ k. shared (rw (n, k, (same_iff key key).1 refl) at h),
    λ own. ground (arith, h, n, immutable_family i own),
  )
]
  where
    shared : true ≡ false → ⊥
    shared e = cc e

pub IsUnused-key :
    (prior : List PriorResult) (i : Intended) (d : Dispatch) (key : String)
    → any (belongs_to d i (some key)) prior ≡ false
    → IsUnused prior i d key
IsUnused-key prior i d key h p k other =
    foreign_result d i key p (none_belongs (belongs_to d i (some key)) prior p h k) other
