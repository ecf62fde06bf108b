-- ===== src/Orchestrator/Placement.antt =====
-- Where the reservoir of orchestrator.rs puts a new member.
use mls_experimental_analysi.Base.{
  ℕ, suc, ◌≤◌, ◌<◌, String, ◌≡◌, refl, ◌∙◌, ◌≢◌, false, some, List, arith, ltb, ==_iff, length,
  get_elem?, set, contains, string_eq, get_elem?-lt, get_elem?-set_self, get_elem?-set_ne,
  length-set, Bool-cases, ◌⊎◌, inl, inr, returns,
}
use mls_experimental_analysi.Config.{OrchestratedParameters}
use mls_experimental_analysi.Orchestrator.{place}
use mls_experimental_analysi.Orchestrator.Slots.{
  Filled, Distinct, active_count-eq, Filled-le, Filled-member, Filled-empty, Filled-join,
  Filled-set, contains-set, Distinct-set, Distinct-move, not-contains,
}

-- What one new member does to the slots, where the first `n` are taken: with the committers full
-- and a sample beyond the slots it stays out; it joins at the end if there are too few committers,
-- or if the sample points at an empty slot; or it takes the slot of the sample, whose member moves
-- to the end while there is room.
pub data Placed (p : OrchestratedParameters) (n sample : ℕ) (known : List String) (name : String)
    (known' : List String) : Type 0 where
  stays_out :
      p.max_active_committers ≤ n
      → p.max_active_processers ≤ sample
      → known' ≡ known
      → Placed p n sample known name known'
  joins :
      n < length known
      → (n < p.max_active_committers) ⊎ (n ≤ sample)
      → known' ≡ set known n name
      → Placed p n sample known name known'
  displaces :
      (previous : String)
      → p.max_active_committers ≤ n
      → sample < n
      → n < length known
      → get_elem? known sample ≡ some previous
      → known' ≡ set (set known n previous) sample name
      → Placed p n sample known name known'
  replaces :
      p.max_active_committers ≤ n
      → sample < n
      → known' ≡ set known sample name
      → Placed p n sample known name known'

-- The slots are as many as the parameters say, in order, and without repetition.
pub record Ordered (n size : ℕ) (known : List String) : Type 0 where
  pub sized : length known ≡ size
  pub filled : Filled n known
  pub distinct : Distinct known

module _ (p : OrchestratedParameters) (n : ℕ) (known : List String) (name : String) (sample : ℕ)
    (fits : p.max_active_committers ≤ p.max_active_processers)
    (sized : length known ≡ p.max_active_processers) (filled : Filled n known) where
  Result : Type 0
  Result =
      (known' : List String) × (place p known name sample ≡ returns known')
      × Placed p n sample known name known'

  place_join : n < p.max_active_committers → Result
  unfolding place Result
  place_join h = (
    set known n name,
    ground (arith, active_count-eq n known filled),
    joins (omega arith) (inl h) refl,
  )

  place_skip : p.max_active_committers ≤ n → p.max_active_processers ≤ sample → Result
  unfolding place Result
  place_skip h k = (known, ground (arith, active_count-eq n known filled), stays_out h k refl)

  place_replace :
      p.max_active_committers ≤ n
      → sample < p.max_active_processers
      → p.max_active_processers ≤ n
      → Result
  unfolding place Result
  place_replace h k full =
      let (previous, e) = get_elem?-lt known sample (omega arith) in
      (
        set known sample name,
        ground (arith, e, active_count-eq n known filled, Filled-le n known filled),
        replaces h (omega arith) refl,
      )

  place_vacant :
      p.max_active_committers ≤ n → sample < p.max_active_processers → n ≤ sample → Result
  unfolding place Result
  place_vacant h k above =
      let (previous, e) = get_elem?-lt known sample (omega arith) in
      (
        set known n name,
        ground (
          arith,
          e,
          active_count-eq n known filled,
          ==_iff previous "",
          Filled-empty n known sample previous filled above e,
        ),
        joins (omega arith) (inr above) refl,
      )

  place_displace :
      p.max_active_committers ≤ n
      → sample < p.max_active_processers
      → n < p.max_active_processers
      → sample < n
      → Result
  unfolding place Result
  place_displace h k room below =
      let (previous, e) = get_elem?-lt known sample (omega arith) in
      (
        set (set known n previous) sample name,
        ground (
          arith,
          e,
          active_count-eq n known filled,
          ==_iff previous "",
          Filled-member n known sample previous filled below e,
          length-set known n previous,
        ),
        displaces previous h below (omega arith) e refl,
      )

  -- In a row of slots whose members stand in front, with usable bounds, a new member is placed
  -- without an index out of bounds, in one of the ways that `Placed` lists.
  pub place-Placed :
      (known' : List String) × (place p known name sample ≡ returns known')
      × Placed p n sample known name known'
  unfolding Result
  place-Placed = elim (Bool-cases (ltb n p.max_active_committers)) [
    | inl few ↦ place_join (ground arith)
    | inr many ↦ elim (Bool-cases (ltb sample p.max_active_processers)) [
      | inr out ↦ place_skip (ground arith) (ground arith)
      | inl in_range ↦ elim (Bool-cases (ltb sample n)) [
        | inr above ↦ place_vacant (ground arith) (ground arith) (ground arith)
        | inl below ↦ elim (Bool-cases (ltb n p.max_active_processers)) [
          | inl room ↦ place_displace (ground arith) (ground arith) (ground arith) (ground arith)
          | inr full ↦ place_replace (ground arith) (ground arith) (ground arith)
        ]
      ]
    ]
  ]

module _ (p : OrchestratedParameters) (n sample : ℕ) (known : List String) (name : String)
    (known' : List String) (full : p.max_active_committers ≤ n) where
  -- With the committers' slots taken, a sample behind them leaves them alone.
  pub Placed-kept :
      (i : ℕ)
      → i < p.max_active_committers
      → p.max_active_committers ≤ sample
      → Placed p n sample known name known'
      → get_elem? known' i ≡ get_elem? known i
  Placed-kept i below above (stays_out _ _ e) = rw e refl
  Placed-kept i below above (joins _ _ e) = rw e (get_elem?-set_ne known n i name (omega arith))
  Placed-kept i below above (displaces previous _ _ _ _ e) = rw e (
      get_elem?-set_ne (set known n previous) sample i name (omega arith)
      ∙ get_elem?-set_ne known n i previous (omega arith))
  Placed-kept i below above (replaces _ _ e) =
      rw e (get_elem?-set_ne known sample i name (omega arith))

  -- The sample 0 makes the new member the first, if there was one.
  pub Placed-first :
      0 < n
      → 0 < p.max_active_processers
      → n ≤ length known
      → sample ≡ 0
      → Placed p n sample known name known'
      → get_elem? known' 0 ≡ some name
  Placed-first some_member room fits at (stays_out _ past e) = absurd (omega arith)
  Placed-first some_member room fits at (joins _ (inl few) e) = absurd (omega arith)
  Placed-first some_member room fits at (joins _ (inr empty) e) = absurd (omega arith)
  Placed-first some_member room fits at (displaces previous _ _ inside _ e) =
      rw (e, at)
        (get_elem?-set_self (set known n previous) 0 name
          (omega (arith, length-set known n previous)))
  Placed-first some_member room fits at (replaces _ _ e) =
      rw (e, at) (get_elem?-set_self known 0 name (omega arith))

-- Every such placement of a new name keeps the slots in order, and adds no other name.
pub Placed-Ordered :
    (p : OrchestratedParameters) (n sample size : ℕ) (known : List String) (name : String)
    (known' : List String)
    → Ordered n size known
    → name ≢ ""
    → contains known name ≡ false
    → Placed p n sample known name known'
    → (n' : ℕ) × (n ≤ n') × Ordered n' size known'
Placed-Ordered p n sample size known name known' o ne fresh (stays_out _ _ e) =
    (n, omega arith, rw e o)
Placed-Ordered p n sample size known name known' o ne fresh (joins h _ e) = (
  suc n,
  omega arith,
  rw e (record {
    sized = length-set known n name ∙ o.sized;
    filled = Filled-join n known name o.filled h ne;
    distinct = Distinct-set known n name o.distinct fresh;
  }),
)
Placed-Ordered p n sample size known name known' o ne fresh (replaces _ h e) = (
  n,
  omega arith,
  rw e (record {
    sized = length-set known sample name ∙ o.sized;
    filled = Filled-set n known sample name o.filled h ne;
    distinct = Distinct-set known sample name o.distinct fresh;
  }),
)
Placed-Ordered p n sample size known name known' o ne fresh (displaces previous _ h k at_i e) =
    let (x, at_n) = get_elem?-lt known n k in
    let member = Filled-member n known sample previous o.filled h at_i in
    (
      suc n,
      omega arith,
      rw e (record {
        sized = length-set _ sample name ∙ length-set known n previous ∙ o.sized;
        filled =
            Filled-set (suc n) (set known n previous) sample name
              (Filled-join n known previous o.filled k member) (omega arith) ne;
        distinct =
            Distinct-move known n sample previous name o.distinct fresh (omega arith) at_i
              (ground (arith, at_n, Filled-empty n known n x o.filled (omega arith) at_n));
      }),
    )

pub Placed-contains :
    (p : OrchestratedParameters) (n sample : ℕ) (known : List String) (name : String)
    (known' : List String) (m : String)
    → Placed p n sample known name known'
    → contains known m ≡ false
    → name ≢ m
    → contains known' m ≡ false
Placed-contains p n sample known name known' m (stays_out _ _ e) h ne = rw e h
Placed-contains p n sample known name known' m (joins _ _ e) h ne =
    rw e (contains-set known n name m h ne)
Placed-contains p n sample known name known' m (replaces _ _ e) h ne =
    rw e (contains-set known sample name m h ne)
Placed-contains p n sample known name known' m (displaces previous _ _ _ at_i e) h ne = rw e (
    contains-set _ sample name m
      (contains-set known n previous m h (not-contains known m sample previous h at_i)) ne)
