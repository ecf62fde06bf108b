-- ===== src/Orchestrator/Candidates.antt =====
-- Candidates and new members in the draw of orchestrator.rs, by the pigeonhole principle.
use mls_experimental_analysi.Base.{
  ℕ, zero, suc, ◌≤◌, ◌<◌, String, ◌≡◌, refl, ◌≢◌, true, false, some, List, [], ◌∷◌, arith, ◌==◌,
  ==_iff, length, get_elem?, contains, string_eq, nat_eq, get_elem?-lt, Bool-cases, ◌⊎◌, inl, inr,
  if◌then◌else◌,
}
use mls_experimental_analysi.Orchestrator.Slots.{Distinct}
use mls_experimental_analysi.Orchestrator.Safety.{Fresh}
use mls_experimental_analysi.Orchestrator.Reroll.{AllNew}

-- The list without the first copy of the name.
remove_one : String → List String → List String
remove_one w [] = []
remove_one w (x ∷ xs) = if x == w then xs else x ∷ remove_one w xs

length-remove_one :
    (w : String) (xs : List String)
    → contains xs w ≡ true
    → length xs ≡ suc (length (remove_one w xs))
unfolding remove_one
length-remove_one w [] h = cc
length-remove_one w (x ∷ xs) h = ground (arith, length-remove_one w xs)

contains-remove_one :
    (w v : String) (xs : List String)
    → contains xs v ≡ true
    → v ≢ w
    → contains (remove_one w xs) v ≡ true
unfolding remove_one
contains-remove_one w v [] h ne = h
contains-remove_one w v (x ∷ xs) h ne =
    ground (arith, ==_iff x w, ==_iff x v, λ (e : v ≡ w). ne e, contains-remove_one w v xs)

remove_one-contains :
    (w v : String) (xs : List String) → contains xs v ≡ false → contains (remove_one w xs) v ≡ false
unfolding remove_one
remove_one-contains w v [] h = h
remove_one-contains w v (x ∷ xs) h = ground (arith, remove_one-contains w v xs)

-- Different slots that hold new members are no more than the new members.
AllNew-le :
    (m : ℕ) (new_members known : List String)
    → Distinct known
    → contains new_members "" ≡ false
    → AllNew m new_members known
    → m ≤ length new_members
AllNew-le zero new_members known d named all = omega arith
AllNew-le (suc m) new_members known d named all =
    let (w, e, new) = all m (omega arith) in
    let others : AllNew m (remove_one w new_members) known = λ i h.
      let (v, f, new') = all i (omega arith) in
      (v, f, contains-remove_one w v new_members new' (apart i w v h e f new')) in
    omega (
      arith,
      length-remove_one w new_members new,
      AllNew-le m (remove_one w new_members) known d (remove_one-contains w "" new_members named)
          others,
    )
  where
    apart :
        (i : ℕ) (w v : String)
        → i < m
        → get_elem? known m ≡ some w
        → get_elem? known i ≡ some v
        → contains new_members v ≡ true
        → v ≢ w
    apart i w v h e f new same =
        let clash : m ≡ i = d m i v (ground arith) f (λ blank. ground arith) in absurd (omega arith)

pub Fresh-named : (names known : List String) → Fresh names known → contains names "" ≡ false
Fresh-named [] known f = refl
Fresh-named (name ∷ names) known f =
    ground (arith, ==_iff name "", λ (e : name ≡ ""). f.0 e, Fresh-named names known f.3)

AllNew-suc :
    (m : ℕ) (new_members known : List String) (w : String)
    → get_elem? known m ≡ some w
    → contains new_members w ≡ true
    → AllNew m new_members known
    → AllNew (suc m) new_members known
AllNew-suc m new_members known w e new all i h = elim (Bool-cases (i == m)) [
  | inl same ↦ let q : i ≡ m = ground arith in (w, rw q e, new)
  | inr other ↦ all i (ground arith)
]

-- Some slot below `m` is not held by a new member, or all are.
old_or_all :
    (m : ℕ) (new_members known : List String)
    → m ≤ length known
    → ((i : ℕ) × (w : String) × (i < m)
        × (get_elem? known i ≡ some w)
        × (contains new_members w ≡ false))
      ⊎ AllNew m new_members known
old_or_all zero new_members known room = inr (λ i h. absurd (omega arith))
old_or_all (suc m) new_members known room =
    let (w, e) = get_elem?-lt known m (omega arith) in
    elim (Bool-cases (contains new_members w)) [
      | inr old ↦ inl (m, w, omega arith, e, old)
      | inl new ↦ elim (old_or_all m new_members known (omega arith)) [
        | inl (i, v, h, f, old) ↦ inl (i, v, omega arith, f, old)
        | inr all ↦ inr (AllNew-suc m new_members known w e new all)
      ]
    ]

-- With fewer new members than candidates, some candidate is not new.
pub old_candidate :
    (m : ℕ) (new_members known : List String)
    → m ≤ length known
    → Distinct known
    → contains new_members "" ≡ false
    → length new_members < m
    → (i : ℕ) × (w : String) × (i < m)
      × (get_elem? known i ≡ some w)
      × (contains new_members w ≡ false)
old_candidate m new_members known room d named few = elim (old_or_all m new_members known room) [
  | inl found ↦ found
  | inr all ↦ absurd (omega (arith, AllNew-le m new_members known d named all))
]
