-- ===== src/Scheduling/PoolTotals.antt =====
-- Sums over the groups of the ready pool, and the sets and maps of its state.
use ai_sdlc_framework.Prelude.{
  ℕ, ◌+◌, ◌-◌, ◌≤◌, Bool, true, false, not, ◌&&◌, ◌||◌, List, [], ◌∷◌, ◌++◌, ◌≡◌, refl, ap, ◌∙◌,
  ◌==◌, ==_iff, every, includes, if◌then◌else◌, length, arith, Bool-cases, inl, inr, ◌⊎◌,
}
use ai_sdlc_framework.Scheduling.Pool.{
  Group, Status, is_passed, has_passed, set_completed, delete, add_all, delete_resource, delete_all,
  insert_group, admission_order, ids, unique,
}

abbrev pub as_number : Bool → ℕ
as_number true = 1
as_number false = 0

abbrev pub total : (Group → ℕ) → List Group → ℕ
total m [] = 0
total m (g ∷ gs) = m g + total m gs

-- How many of the groups have the identity `i`, and how many hold the resource `r`.
abbrev pub same_id : ℕ → Group → ℕ
same_id i g = as_number (g.id == i)

abbrev pub holds : ℕ → Group → ℕ
holds r g = as_number (includes g.exclusive_resources r)

abbrev pub slots : List Group → ℕ
slots = total (λ g. g.minimum_slots)

abbrev pub count_done : ℕ → List (ℕ × Status) → ℕ
count_done i [] = 0
count_done i ((j, s) ∷ done) = as_number (j == i) + count_done i done

abbrev pub IsIn : Group → List Group → Type 0
IsIn g [] = ⊥
IsIn g (h ∷ hs) = (g ≡ h) ⊎ IsIn g hs

pub total-append :
    (m : Group → ℕ) (gs hs : List Group) → total m (gs ++ hs) ≡ total m gs + total m hs
total-append m [] hs = omega arith
total-append m (g ∷ gs) hs = omega (arith, total-append m gs hs)

pub length-total : (gs : List Group) → length gs ≡ total (λ g. 1) gs
length-total [] = refl
length-total (g ∷ gs) = omega (arith, length-total gs)

pub total-insert :
    (m : Group → ℕ) (g : Group) (gs : List Group) → total m (insert_group g gs) ≡ m g + total m gs
unfolding insert_group
total-insert m g [] = refl
total-insert m g (h ∷ hs) = ground (arith, total-insert m g hs)

-- Sorting keeps every sum.
pub total-admission_order :
    (m : Group → ℕ) (gs : List Group) → total m (admission_order gs) ≡ total m gs
unfolding admission_order
total-admission_order m [] = refl
total-admission_order m (g ∷ gs) =
    omega (arith, total-insert m g (admission_order gs), total-admission_order m gs)

pub count-delete :
    (i j : ℕ) (gs : List Group)
    → total (same_id i) (delete j gs) ≡ total (same_id i) gs - as_number (j == i)
unfolding delete
count-delete i j [] = ground arith
count-delete i j (g ∷ gs) = ground (arith, count-delete i j gs)

IsIn-count : (g : Group) (gs : List Group) → IsIn g gs → 1 ≤ total (same_id g.id) gs
IsIn-count g (h ∷ hs) (inl e) = ground (arith, ap (λ (x : Group). x.id) e)
IsIn-count g (h ∷ hs) (inr k) = ground (arith, IsIn-count g hs k)
IsIn-count g [] k = elim k [ ]

-- Deleting a group of a list with distinct identities takes exactly that group away.
pub total-delete :
    (m : Group → ℕ) (g : Group) (gs : List Group)
    → IsIn g gs
    → total (same_id g.id) gs ≤ 1
    → m g + total m (delete g.id gs) ≡ total m gs
unfolding delete
total-delete m g [] k u = elim k [ ]
total-delete m g (h ∷ hs) (inl e) u =
    ground (arith, ap (λ (x : Group). x.id) e, ap (λ (x : Group). m x) e)
total-delete m g (h ∷ hs) (inr k) u = ground (arith, IsIn-count g hs k, total-delete m g hs k)

pub every-delete :
    (p : Group → Bool) (i : ℕ) (gs : List Group) → every p gs ≡ true → every p (delete i gs) ≡ true
unfolding delete
every-delete p i [] h = refl
every-delete p i (g ∷ gs) h = ground (arith, every-delete p i gs)

pub every-insert :
    (p : Group → Bool) (g : Group) (gs : List Group)
    → every p (insert_group g gs) ≡ (p g && every p gs)
unfolding insert_group
every-insert p g [] = refl
every-insert p g (h ∷ hs) = ground (arith, every-insert p g hs)

pub every-admission_order :
    (p : Group → Bool) (gs : List Group) → every p (admission_order gs) ≡ every p gs
unfolding admission_order
every-admission_order p [] = refl
every-admission_order p (g ∷ gs) =
    every-insert p g (admission_order gs) ∙ ap (◌&&◌ (p g)) (every-admission_order p gs)

pub every_mono {ℓ} :
    {A : Type ℓ} (p q : A → Bool) (xs : List A)
    → ((x : A) → p x ≡ true → q x ≡ true)
    → every p xs ≡ true
    → every q xs ≡ true
every_mono p q [] h k = refl
every_mono p q (x ∷ xs) h k = ground (arith, h x, every_mono p q xs h)

includes-append :
    (xs ys : List ℕ) (r : ℕ) → includes (xs ++ ys) r ≡ (includes xs r || includes ys r)
includes-append [] ys r = refl
includes-append (x ∷ xs) ys r = ground (arith, includes-append xs ys r)

includes-add :
    (x r : ℕ) (xs : List ℕ)
    → includes (if includes xs x then xs else xs ++ x ∷ []) r ≡ ((x == r) || includes xs r)
includes-add x r xs = elim (Bool-cases (includes xs x)) [
  | inl e ↦ rw e (ground (arith, ==_iff x r))
  | inr n ↦ rw (n, includes-append xs (x ∷ []) r) (ground arith)
]

pub includes-add_all :
    (rs xs : List ℕ) (r : ℕ) → includes (add_all rs xs) r ≡ (includes rs r || includes xs r)
unfolding add_all
includes-add_all [] xs r = refl
includes-add_all (x ∷ rs) xs r =
    rw (includes-add_all rs (if includes xs x then xs else xs ++ x ∷ []) r, includes-add x r xs)
      (ground arith)

includes-delete_resource :
    (x : ℕ) (xs : List ℕ) (r : ℕ)
    → includes (delete_resource x xs) r ≡ (includes xs r && not (x == r))
unfolding delete_resource
includes-delete_resource x [] r = refl
includes-delete_resource x (y ∷ ys) r = ground (arith, includes-delete_resource x ys r)

pub includes-delete_all :
    (rs xs : List ℕ) (r : ℕ)
    → includes (delete_all rs xs) r ≡ (includes xs r && not (includes rs r))
unfolding delete_all
includes-delete_all [] xs r = ground arith
includes-delete_all (x ∷ rs) xs r =
    rw (includes-delete_all rs (delete_resource x xs) r, includes-delete_resource x xs r)
      (ground arith)

pub has_passed-set_completed :
    (done : List (ℕ × Status)) (i j : ℕ) (s : Status)
    → has_passed (set_completed done i s) j ≡ (if i == j then is_passed s else has_passed done j)
unfolding has_passed set_completed
has_passed-set_completed [] i j s = refl
has_passed-set_completed ((k, t) ∷ done) i j s = ground (arith, has_passed-set_completed done i j s)

pub count_done-set_completed :
    (done : List (ℕ × Status)) (i j : ℕ) (s : Status)
    → count_done i done ≡ 0
    → count_done j (set_completed done i s) ≡ count_done j done + as_number (i == j)
unfolding set_completed
count_done-set_completed [] i j s h = ground arith
count_done-set_completed ((k, t) ∷ done) i j s h =
    ground (arith, count_done-set_completed done i j s)

pub has_passed-count_done :
    (done : List (ℕ × Status)) (i : ℕ) → has_passed done i ≡ true → 1 ≤ count_done i done
unfolding has_passed
has_passed-count_done [] i h = cc
has_passed-count_done ((j, s) ∷ done) i h = ground (arith, has_passed-count_done done i)

includes-ids : (i : ℕ) (gs : List Group) → includes (ids gs) i ≡ false → total (same_id i) gs ≡ 0
unfolding ids
includes-ids i [] h = refl
includes-ids i (g ∷ gs) h = ground (arith, includes-ids i gs)

pub unique-count : (gs : List Group) → unique (ids gs) ≡ true → (i : ℕ) → total (same_id i) gs ≤ 1
unfolding unique ids
unique-count [] h i = omega arith
unique-count (g ∷ gs) h i =
    ground (arith, includes-ids g.id gs, unique-count gs (ground arith) i, ==_iff g.id i)
