-- ===== src/Orchestrator/Slots.antt =====
-- The list `known_members` of orchestrator.rs as a row of slots: members in front, then empty
-- slots, and no member twice.
use mls_experimental_analysi.Base.{
  ℕ, zero, suc, ◌≤◌, ◌<◌, String, ◌≡◌, refl, ◌≢◌, true, false, some, List, [], ◌∷◌, arith, ◌==◌,
  ==_iff, length, get_elem?, set, contains, position, string_eq, Bool-cases, ◌⊎◌, inl, inr, All,
}
use mls_experimental_analysi.Orchestrator.{active_count, has_gap}

-- `n` members and nothing but empty slots behind them.
abbrev pub Filled : ℕ → List String → Type 0
Filled zero xs = All (λ x. x ≡ "") xs
Filled (suc n) [] = ⊥
Filled (suc n) (x ∷ xs) = (x ≢ "") × Filled n xs

-- No member stands in two slots.
abbrev pub Distinct : List String → Type 0
Distinct xs =
    (i j : ℕ) (x : String) → get_elem? xs i ≡ some x → get_elem? xs j ≡ some x → x ≢ "" → i ≡ j

pub active_count-eq : (n : ℕ) (xs : List String) → Filled n xs → active_count xs ≡ n
unfolding active_count
active_count-eq zero [] f = refl
active_count-eq zero (x ∷ xs) f = ground (arith, ==_iff x "", active_count-eq zero xs f.1)
active_count-eq (suc n) [] f = absurd f
active_count-eq (suc n) (x ∷ xs) f =
    ground (arith, ==_iff x "", active_count-eq n xs f.1, λ (e : x ≡ ""). f.0 e)

pub Filled-le : (n : ℕ) (xs : List String) → Filled n xs → n ≤ length xs
Filled-le zero xs f = omega arith
Filled-le (suc n) [] f = absurd f
Filled-le (suc n) (x ∷ xs) f = omega (arith, Filled-le n xs f.1)

pub Filled-member :
    (n : ℕ) (xs : List String) (i : ℕ) (x : String)
    → Filled n xs
    → i < n
    → get_elem? xs i ≡ some x
    → x ≢ ""
Filled-member zero xs i x f h e = absurd (omega arith)
Filled-member (suc n) [] i x f h e = absurd f
Filled-member (suc n) (y ∷ xs) zero x f h e = λ q. f.0 (ground arith)
Filled-member (suc n) (y ∷ xs) (suc i) x f h e = Filled-member n xs i x f.1 (omega arith) e

pub Filled-empty :
    (n : ℕ) (xs : List String) (i : ℕ) (x : String)
    → Filled n xs
    → n ≤ i
    → get_elem? xs i ≡ some x
    → x ≡ ""
Filled-empty zero [] i x f h e = cc
Filled-empty zero (y ∷ xs) zero x f h e = ground arith
Filled-empty zero (y ∷ xs) (suc i) x f h e = Filled-empty zero xs i x f.1 (omega arith) e
Filled-empty (suc n) [] i x f h e = absurd f
Filled-empty (suc n) (y ∷ xs) zero x f h e = absurd (omega arith)
Filled-empty (suc n) (y ∷ xs) (suc i) x f h e = Filled-empty n xs i x f.1 (omega arith) e

-- A member in the first empty slot.
pub Filled-join :
    (n : ℕ) (xs : List String) (v : String)
    → Filled n xs
    → n < length xs
    → v ≢ ""
    → Filled (suc n) (set xs n v)
Filled-join zero [] v f h ne = absurd (omega arith)
Filled-join zero (x ∷ xs) v f h ne = (ne, f.1)
Filled-join (suc n) [] v f h ne = absurd f
Filled-join (suc n) (x ∷ xs) v f h ne = (f.0, Filled-join n xs v f.1 (omega arith) ne)

-- A member in the place of another.
pub Filled-set :
    (n : ℕ) (xs : List String) (i : ℕ) (v : String)
    → Filled n xs
    → i < n
    → v ≢ ""
    → Filled n (set xs i v)
Filled-set zero xs i v f h ne = absurd (omega arith)
Filled-set (suc n) [] i v f h ne = absurd f
Filled-set (suc n) (x ∷ xs) zero v f h ne = (ne, f.1)
Filled-set (suc n) (x ∷ xs) (suc i) v f h ne = (f.0, Filled-set n xs i v f.1 (omega arith) ne)

-- No empty slot stands before a member: the program's consistency test does not fire.
pub has_gap-Filled : (n : ℕ) (xs : List String) → Filled n xs → has_gap xs ≡ false
unfolding has_gap
has_gap-Filled zero [] f = refl
has_gap-Filled zero (x ∷ []) f = refl
has_gap-Filled zero (x ∷ y ∷ xs) f = ground (arith, ==_iff y "", has_gap-Filled zero (y ∷ xs) f.1)
has_gap-Filled (suc n) [] f = absurd f
has_gap-Filled (suc n) (x ∷ []) f = refl
has_gap-Filled (suc n) (x ∷ y ∷ xs) f =
    ground (arith, ==_iff x "", λ (e : x ≡ ""). f.0 e, has_gap-Filled n (y ∷ xs) f.1)

pub not-contains :
    (xs : List String) (v : String) (i : ℕ) (x : String)
    → contains xs v ≡ false
    → get_elem? xs i ≡ some x
    → x ≢ v
not-contains [] v i x h e = cc
not-contains (y ∷ xs) v zero x h e = ground (arith, ==_iff y v)
not-contains (y ∷ xs) v (suc i) x h e = not-contains xs v i x (ground arith) e

pub contains_of_get :
    (xs : List String) (i : ℕ) (x : String) → get_elem? xs i ≡ some x → contains xs x ≡ true
contains_of_get [] i x e = cc
contains_of_get (y ∷ xs) zero x e = ground (arith, ==_iff y x)
contains_of_get (y ∷ xs) (suc i) x e = ground (arith, contains_of_get xs i x e)

pub contains-set :
    (xs : List String) (i : ℕ) (v m : String)
    → contains xs m ≡ false
    → v ≢ m
    → contains (set xs i v) m ≡ false
contains-set [] i v m h ne = refl
contains-set (x ∷ xs) zero v m h ne = ground (arith, ==_iff v m, λ (e : v ≡ m). ne e)
contains-set (x ∷ xs) (suc i) v m h ne = ground (arith, contains-set xs i v m)

-- `position` finds a slot that holds the name, and finds one if there is any.
pub position-get :
    (xs : List String) (x : String) (i : ℕ) → position xs x ≡ some i → get_elem? xs i ≡ some x
position-get [] x i e = cc
position-get (y ∷ xs) x zero e = ground (arith, ==_iff y x, position xs x)
position-get (y ∷ xs) x (suc i) e = ground (arith, position-get xs x i)

pub position_of_get :
    (xs : List String) (x : String) (i : ℕ)
    → get_elem? xs i ≡ some x
    → (j : ℕ) × (position xs x ≡ some j) × (get_elem? xs j ≡ some x)
position_of_get [] x i e = cc
position_of_get (y ∷ xs) x zero e = (0, ground (arith, ==_iff y x), e)
position_of_get (y ∷ xs) x (suc i) e = elim (Bool-cases (y == x)) [
  | inl hit ↦ (0, rw hit, ground (arith, ==_iff y x))
  | inr miss ↦ let (j, p, q) = position_of_get xs x i e in (suc j, rw (miss, p), q)
]

pub position-Distinct :
    (xs : List String) (x : String) (i : ℕ)
    → Distinct xs
    → get_elem? xs i ≡ some x
    → x ≢ ""
    → position xs x ≡ some i
position-Distinct xs x i d e ne = let (j, p, q) = position_of_get xs x i e in rw (d i j x e q ne) p

-- What a written slot, or another, holds.
pub set-inv :
    (xs : List String) (i : ℕ) (v : String) (j : ℕ) (x : String)
    → get_elem? (set xs i v) j ≡ some x
    → ((i ≡ j) × (x ≡ v)) ⊎ ((i ≢ j) × (get_elem? xs j ≡ some x))
set-inv [] i v j x e = cc
set-inv (y ∷ xs) zero v zero x e = inl (refl, ground arith)
set-inv (y ∷ xs) zero v (suc j) x e = inr (omega arith, e)
set-inv (y ∷ xs) (suc i) v zero x e = inr (omega arith, e)
set-inv (y ∷ xs) (suc i) v (suc j) x e = ground (arith, set-inv xs i v j x e)

-- A name that is new stays the only one of its kind.
pub Distinct-set :
    (xs : List String) (i : ℕ) (v : String)
    → Distinct xs
    → contains xs v ≡ false
    → Distinct (set xs i v)
Distinct-set xs i v d fresh a b x ea eb ne = ground (
  arith,
  set-inv xs i v a x ea,
  set-inv xs i v b x eb,
  d a b x,
  not-contains xs v a x fresh,
  not-contains xs v b x fresh,
)

-- A new name takes a slot whose member moves to an empty slot.
pub Distinct-move :
    (xs : List String) (n i : ℕ) (prev v : String)
    → Distinct xs
    → contains xs v ≡ false
    → i ≢ n
    → get_elem? xs i ≡ some prev
    → get_elem? xs n ≡ some ""
    → Distinct (set (set xs n prev) i v)
Distinct-move xs n i prev v d fresh far at_i at_n a b x ea eb ne = ground (
  arith,
  set-inv (set xs n prev) i v a x ea,
  set-inv (set xs n prev) i v b x eb,
  set-inv xs n prev a x,
  set-inv xs n prev b x,
  d a b x,
  d a i x,
  d b i x,
  not-contains xs v a x fresh,
  not-contains xs v b x fresh,
  not-contains xs v i prev fresh at_i,
)
