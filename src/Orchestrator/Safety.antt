-- ===== src/Orchestrator/Safety.antt =====
-- The slots before and after `process_commit` of orchestrator.rs, and the ends it can have.
use mls_experimental_analysi.Base.{
  ℕ, ◌-◌, ◌≤◌, min, String, ◌≡◌, refl, ◌≢◌, false, none, some, List, [], ◌∷◌, arith, ==_iff,
  contains, string_eq, Outcome, returns, panics, spins, ◌>>=◌,
}
use mls_experimental_analysi.Config.{OrchestratedParameters, AuthorizationPolicy}
use mls_experimental_analysi.Rng.{Rng}
use mls_experimental_analysi.Orchestrator.{
  Orchestrator, NextAction, active_count, sample_position, place_all, elect, decide, settle,
  has_gap, active_position,
}
use mls_experimental_analysi.Orchestrator.Slots.{active_count-eq, has_gap-Filled}
use mls_experimental_analysi.Orchestrator.Placement.{
  Placed, Ordered, place-Placed, Placed-Ordered, Placed-contains,
}

-- The new members have names, different ones, and none of them is known yet.
abbrev pub Fresh : List String → List String → Type 0
Fresh [] known = Unit
Fresh (name ∷ names) known =
    (name ≢ "") × (contains known name ≡ false) × (contains names name ≡ false) × Fresh names known

-- The parameters make sense.
pub record IsUsable (p : OrchestratedParameters) : Type 0 where
  pub some_committer : 1 ≤ p.max_active_committers
  pub fits : p.max_active_committers ≤ p.max_active_processers

abbrev pub InOrder : OrchestratedParameters → List String → Type 0
InOrder p known = Ordered (active_count known) p.max_active_processers known

-- The state of an orchestrator: usable parameters, and slots in order.
pub record WellFormed (o : Orchestrator) : Type 0 where
  pub usable : IsUsable o.parameters
  pub ordered : InOrder o.parameters o.known_members

-- What a call keeps when it returns: the invariant, the client's name and parameters; the
-- consistency test does not fire.
abbrev pub Kept : Orchestrator → Orchestrator × NextAction → Type 0
Kept o (o', _) =
    WellFormed o'
    × (o'.name ≡ o.name)
    × (o'.parameters ≡ o.parameters)
    × (has_gap o'.known_members ≡ false)

-- The same of an outcome, which must not be a panic.
abbrev pub Keeps : Orchestrator → Outcome (Orchestrator × NextAction) → Type 0
Keeps o (returns q) = Kept o q
Keeps o panics = ⊥
Keeps o spins = Unit

pub WellFormed-has_gap : (o : Orchestrator) → WellFormed o → has_gap o.known_members ≡ false
WellFormed-has_gap o v =
    has_gap-Filled (active_count o.known_members) o.known_members v.ordered.filled

pub Ordered-InOrder :
    (p : OrchestratedParameters) (n : ℕ) (known : List String)
    → Ordered n p.max_active_processers known
    → InOrder p known
Ordered-InOrder p n known o = rw (active_count-eq n known o.filled) o

not-contains-head :
    (name m : String) (names : List String)
    → contains (m ∷ names) name ≡ false
    → (name ≢ m) × (contains names name ≡ false)
not-contains-head name m names h = (λ e. ground (arith, ==_iff m name, e), ground arith)

pub Fresh-Placed :
    (p : OrchestratedParameters) (n sample : ℕ) (known : List String) (name : String)
    (known' : List String) (names : List String)
    → Placed p n sample known name known'
    → contains names name ≡ false
    → Fresh names known
    → Fresh names known'
Fresh-Placed p n sample known name known' [] pl h f = tt
Fresh-Placed p n sample known name known' (m ∷ names) pl h f =
    let (ne, rest) = not-contains-head name m names h in
    (
      f.0,
      Placed-contains p n sample known name known' m pl f.1 ne,
      f.2,
      Fresh-Placed p n sample known name known' names pl rest f.3,
    )

module _ (r : Rng) where
  open r use {State, from_seed}

  -- With a member in the group, the policy's range is not empty.
  pub sample_position-returns :
      (a : AuthorizationPolicy) (c total_members : ℕ) (s : State)
      → 1 ≤ total_members
      → (q : ℕ × State) × (sample_position r a c total_members s ≡ returns q)
  unfolding sample_position
  sample_position-returns AuthorizationPolicy.first c total_members s h =
      (r.draw s (min c (total_members - 1)) total_members, ground arith)
  sample_position-returns AuthorizationPolicy.last c total_members s h = ((0, s), refl)
  sample_position-returns AuthorizationPolicy.random c total_members s h =
      (r.draw s 0 total_members, ground arith)

  -- The loop over the new members returns, with the slots in order.
  pub place_all-returns :
      (p : OrchestratedParameters) (total_members n : ℕ) (names known : List String) (s : State)
      → IsUsable p
      → 1 ≤ total_members
      → Ordered n p.max_active_processers known
      → Fresh names known
      → (known' : List String) × (s' : State) × (place_all r p total_members names known s
          ≡ returns (known', s'))
        × InOrder p known'
  unfolding place_all
  place_all-returns p total_members n [] known s u h o f =
      (known, s, refl, Ordered-InOrder p n known o)
  place_all-returns p total_members n (name ∷ names) known s u h o f =
      let ((sample, s'), e) =
        sample_position-returns p.auth_policy p.max_active_committers total_members s h in
      let (known', e', pl) = place-Placed p n known name sample u.fits o.sized o.filled in
      let (n', _, o') =
        Placed-Ordered p n sample p.max_active_processers known name known' o f.0 f.1 pl in
      let (last, s'', e'', done) =
        place_all-returns p total_members n' names known' s' u h o'
          (Fresh-Placed p n sample known name known' names pl f.2 f.3) in
      (last, s'', rw (e, e') e'', done)

  pub decide_inactive :
      (fuel : ℕ) (o : Orchestrator) (total_members : ℕ) (new_members : List String) (s : State)
      → active_position o ≡ none
      → decide r fuel o total_members new_members s ≡ returns (o, NextAction.inactive)
  unfolding decide
  decide_inactive fuel o total_members new_members s e = ground arith

  pub decide_active :
      (fuel : ℕ) (o : Orchestrator) (total_members : ℕ) (new_members : List String) (s : State)
      (here : ℕ)
      → active_position o ≡ some here
      → decide r fuel o total_members new_members s ≡ (
          elect r fuel (min o.max_active_committers total_members) new_members o.known_members s
          >>= λ who_acts. returns (settle o new_members here who_acts))
  unfolding decide
  decide_active fuel o total_members new_members s here e = rw (e, decide)

  pub settle-WellFormed :
      (o : Orchestrator) (new_members : List String) (here who_acts : ℕ)
      → WellFormed o
      → Kept o (settle o new_members here who_acts)
  unfolding settle
  settle-WellFormed o new_members here who_acts v = ground (arith, WellFormed-has_gap o v)
