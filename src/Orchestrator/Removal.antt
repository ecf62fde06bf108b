-- ===== src/Orchestrator/Removal.antt =====
-- `remove_members` and `new` of orchestrator.rs: who stays.
use mls_experimental_analysi.Base.{
  ℕ, zero, suc, ◌≤◌, String, ◌≡◌, refl, sym, ◌∙◌, ap, ◌≢◌, Bool, true, false, ◌&&◌, not, some, none,
  List, [], ◌∷◌, arith, ◌==◌, ==_iff, length, get_elem?, resize, retain, contains, string_eq,
  nat_eq, length-resize, length-retain-le, Bool-cases, inl, inr, returns,
}
use mls_experimental_analysi.Config.{OrchestratedParameters}
use mls_experimental_analysi.Orchestrator.{Orchestrator, active_position, remove_members, new}
use mls_experimental_analysi.Orchestrator.Slots.{Filled, Distinct, contains_of_get, Filled-le}
use mls_experimental_analysi.Orchestrator.Placement.{Ordered}
use mls_experimental_analysi.Orchestrator.Safety.{IsUsable, WellFormed, Ordered-InOrder}

-- The same as `Distinct`, by recursion.
abbrev pub NoRepeat : List String → Type 0
NoRepeat [] = Unit
NoRepeat (x ∷ xs) = (x ≢ "" → contains xs x ≡ false) × NoRepeat xs

get_of_contains :
    (xs : List String) (x : String) → contains xs x ≡ true → (i : ℕ) × (get_elem? xs i ≡ some x)
get_of_contains [] x h = cc
get_of_contains (y ∷ xs) x h = elim (Bool-cases (y == x)) [
  | inl hit ↦ (0, ground (arith, ==_iff y x))
  | inr miss ↦ let (i, e) = get_of_contains xs x (ground arith) in (suc i, e)
]

Distinct-NoRepeat : (xs : List String) → Distinct xs → NoRepeat xs
Distinct-NoRepeat [] d = tt
Distinct-NoRepeat (x ∷ xs) d = (
  λ ne. elim (Bool-cases (contains xs x)) [
    | inr no_more ↦ no_more
    | inl again ↦
        let (i, e) = get_of_contains xs x again in
        let clash : 0 ≡ suc i = d 0 (suc i) x refl e ne in absurd (omega arith)
  ],
  Distinct-NoRepeat xs
      (λ i j y ei ej ne. let up : suc i ≡ suc j = d (suc i) (suc j) y ei ej ne in omega arith),
)

pub NoRepeat-Distinct : (xs : List String) → NoRepeat xs → Distinct xs
NoRepeat-Distinct [] n i j y ei ej ne = cc
NoRepeat-Distinct (x ∷ xs) n zero zero y ei ej ne = refl
NoRepeat-Distinct (x ∷ xs) n zero (suc j) y ei ej ne =
    ground (arith, contains_of_get xs j y ej, n.0)
NoRepeat-Distinct (x ∷ xs) n (suc i) zero y ei ej ne =
    ground (arith, contains_of_get xs i y ei, n.0)
NoRepeat-Distinct (x ∷ xs) n (suc i) (suc j) y ei ej ne =
    ap suc (NoRepeat-Distinct xs n.1 i j y ei ej ne)

module _ (keep : String → Bool) where
  contains-retain :
      (xs : List String) (m : String) → contains (retain keep xs) m ≡ (contains xs m && keep m)
  contains-retain [] m = refl
  contains-retain (x ∷ xs) m = ground (arith, contains-retain xs m, ==_iff x m)

  retain-NoRepeat : (xs : List String) → NoRepeat xs → NoRepeat (retain keep xs)
  retain-NoRepeat [] n = tt
  retain-NoRepeat (x ∷ xs) n = ground (arith, retain-NoRepeat xs n.1, contains-retain xs x, n.0)

  retain-blank : (xs : List String) → Filled 0 xs → Filled 0 (retain keep xs)
  retain-blank [] f = tt
  retain-blank (x ∷ xs) f = ground (arith, retain-blank xs f.1)

  retain-Filled : (n : ℕ) (xs : List String) → Filled n xs → (k : ℕ) × Filled k (retain keep xs)
  retain-Filled zero xs f = (0, retain-blank xs f)
  retain-Filled (suc n) [] f = absurd f
  retain-Filled (suc n) (x ∷ xs) f =
      let (k, g) = retain-Filled n xs f.1 in
      elim (Bool-cases (keep x)) [
        | inl kept ↦ (suc k, rw kept (f.0, g))
        | inr gone ↦ (k, rw gone g)
      ]

resize-blank : (size : ℕ) (xs : List String) → Filled 0 xs → Filled 0 (resize size "" xs)
resize-blank zero xs f = tt
resize-blank (suc size) [] f = (refl, resize-blank size [] tt)
resize-blank (suc size) (x ∷ xs) f = (f.0, resize-blank size xs f.1)

resize-Filled :
    (n size : ℕ) (xs : List String) → Filled n xs → n ≤ size → Filled n (resize size "" xs)
resize-Filled zero size xs f h = resize-blank size xs f
resize-Filled (suc n) zero xs f h = absurd (omega arith)
resize-Filled (suc n) (suc size) [] f h = absurd f
resize-Filled (suc n) (suc size) (x ∷ xs) f h = (f.0, resize-Filled n size xs f.1 (omega arith))

contains-resize :
    (size : ℕ) (xs : List String) (m : String)
    → length xs ≤ size
    → m ≢ ""
    → contains (resize size "" xs) m ≡ contains xs m
contains-resize zero [] m h ne = refl
contains-resize zero (x ∷ xs) m h ne = absurd (omega arith)
contains-resize (suc size) [] m h ne =
    ground (arith, ==_iff "" m, λ (e : "" ≡ m). ne (sym e), contains-resize size [] m)
contains-resize (suc size) (x ∷ xs) m h ne = ground (arith, contains-resize size xs m)

resize-NoRepeat :
    (size : ℕ) (xs : List String) → length xs ≤ size → NoRepeat xs → NoRepeat (resize size "" xs)
resize-NoRepeat zero xs h n = tt
resize-NoRepeat (suc size) [] h n =
    ((λ ne. absurd (ne refl)), resize-NoRepeat size [] (omega arith) tt)
resize-NoRepeat (suc size) (x ∷ xs) h n = (
  (λ ne. contains-resize size xs x (omega arith) ne ∙ n.0 ne),
  resize-NoRepeat size xs (omega arith) n.1,
)

-- Members in order, cut or filled up to the size, are in order.
resize-Ordered :
    (n size : ℕ) (xs : List String)
    → Filled n xs
    → Distinct xs
    → length xs ≤ size
    → Ordered n size (resize size "" xs)
resize-Ordered n size xs f d h = record {
  sized = length-resize size "" xs;
  filled = resize-Filled n size xs f (omega (arith, Filled-le n xs f));
  distinct = NoRepeat-Distinct _ (resize-NoRepeat size xs h (Distinct-NoRepeat xs d));
}

-- An orchestrator made with usable parameters from a list of distinct members in order, no longer
-- than the slots, is well-formed.
pub new-WellFormed :
    (name : String) (p : OrchestratedParameters) (n : ℕ) (known : List String)
    → IsUsable p
    → Filled n known
    → Distinct known
    → length known ≤ p.max_active_processers
    → WellFormed (new name p known)
unfolding new
new-WellFormed name p n known u f d h = record {
  usable = u;
  ordered = Ordered-InOrder p n _ (resize-Ordered n p.max_active_processers known f d h);
}

module _ (o : Orchestrator) (members_to_remove : List String) (v : WellFormed o) (here : ℕ)
    (active : active_position o ≡ some here) where
  keep : String → Bool
  keep member = not (contains members_to_remove member)

  remaining : List String
  unfolding keep
  remaining = retain keep o.known_members

  -- In a well-formed state an active client removes exactly the members on the list: no other name
  -- comes or goes, the state is well-formed again, and everything but the known members is as it
  -- was.
  pub remove_members_lem :
      (o' : Orchestrator) × (remove_members o members_to_remove ≡ returns o')
      × WellFormed o'
      × (o' ≡ record o { known_members = o'.known_members })
      × ((m : String)
          → m ≢ ""
          → contains o'.known_members m
            ≡ (contains o.known_members m && not (contains members_to_remove m)))
  unfolding remove_members remaining
  remove_members_lem =
      let size = o.max_active_processers in
      let short = length-retain-le keep o.known_members in
      let (k, f) = retain-Filled keep _ o.known_members v.ordered.filled in
      let d = NoRepeat-Distinct remaining (
        retain-NoRepeat keep o.known_members
          (Distinct-NoRepeat o.known_members v.ordered.distinct)) in
      (
        record o { known_members = resize size "" remaining },
        ground (arith, length-resize size "" remaining, v.usable.some_committer, v.usable.fits),
        record {
          usable = v.usable;
          ordered =
              Ordered-InOrder o.parameters k _
                (resize-Ordered k size remaining f d (omega (arith, v.ordered.sized)));
        },
        refl,
        λ m ne.
            contains-resize size remaining m (omega (arith, v.ordered.sized)) ne
            ∙ contains-retain keep o.known_members m,
      )

-- A client that is not active keeps its list as it is.
pub remove_members_inactive :
    (o : Orchestrator) (members_to_remove : List String)
    → active_position o ≡ none
    → remove_members o members_to_remove ≡ returns o
unfolding remove_members
remove_members_inactive o members_to_remove e = ground arith
