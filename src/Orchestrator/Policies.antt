-- ===== src/Orchestrator/Policies.antt =====
-- The authorisation policies of orchestrator.rs and the comments on them.
use mls_experimental_analysi.Base.{
  ℕ, ◌-◌, ◌≤◌, ◌<◌, min, String, ◌≡◌, refl, ◌∙◌, true, some, List, [], ◌∷◌, arith, Bytes, position,
  ==_iff, get_elem?, contains, string_eq, returns, spins, >>=-eq-returns,
}
use mls_experimental_analysi.Config.{OrchestratedParameters, AuthorizationPolicy}
use mls_experimental_analysi.Rng.{Rng}
use mls_experimental_analysi.Orchestrator.{
  Orchestrator, sample_position, place_all, process_commit, active_count, seed_array,
}
use mls_experimental_analysi.Orchestrator.Slots.{Filled-le}
use mls_experimental_analysi.Orchestrator.Placement.{
  Placed, Ordered, place-Placed, Placed-Ordered, Placed-kept, Placed-first,
}
use mls_experimental_analysi.Orchestrator.Safety.{
  Fresh, IsUsable, WellFormed, Fresh-Placed, decide_active,
}
use mls_experimental_analysi.Orchestrator.Reroll.{AllNew, elect-spins}
use mls_experimental_analysi.Orchestrator.Commit.{after_place}

-- The name that a list of new members ends in.
abbrev pub newest : String → List String → String
newest name [] = name
newest name (next ∷ names) = newest next names

module _ (r : Rng) where
  open r use {State, from_seed, draw, draw_bounds}

  sample-first :
      (a : AuthorizationPolicy) (c total_members : ℕ) (s : State) (q : ℕ × State)
      → a ≡ AuthorizationPolicy.first
      → c < total_members
      → sample_position r a c total_members s ≡ returns q
      → c ≤ q.0
  unfolding sample_position
  sample-first AuthorizationPolicy.first c total_members s q a h e =
      let (low, _) = draw_bounds s (min c (total_members - 1)) total_members (omega arith) in
      ground arith
  sample-first AuthorizationPolicy.last c total_members s q a h e = cc
  sample-first AuthorizationPolicy.random c total_members s q a h e = cc

  sample-last :
      (a : AuthorizationPolicy) (c total_members : ℕ) (s : State) (q : ℕ × State)
      → a ≡ AuthorizationPolicy.last
      → sample_position r a c total_members s ≡ returns q
      → q.0 ≡ 0
  unfolding sample_position
  sample-last AuthorizationPolicy.first c total_members s q a e = cc
  sample-last AuthorizationPolicy.last c total_members s q a e = cc
  sample-last AuthorizationPolicy.random c total_members s q a e = cc

  -- One round of the loop, for a proof by cases on what was placed.
  place_all-inv :
      (p : OrchestratedParameters) (total_members : ℕ) (name : String) (names known : List String)
      (s : State) (n : ℕ) (known' : List String) (s' : State)
      → IsUsable p
      → Ordered n p.max_active_processers known
      → place_all r p total_members (name ∷ names) known s ≡ returns (known', s')
      → (q : ℕ × State) × (middle : List String) × (sample_position r p.auth_policy
            p.max_active_committers total_members s
          ≡ returns q)
        × Placed p n q.0 known name middle
        × (place_all r p total_members names middle q.1 ≡ returns (known', s'))
  unfolding place_all
  place_all-inv p total_members name names known s n known' s' u o run =
      let (q, drawn, rest) = >>=-eq-returns _ _ run in
      let (middle, at, pl) = place-Placed p n known name q.0 u.fits o.sized o.filled in
      (q, middle, drawn, pl, rw at at rest)

  -- With the policy `First` and usable parameters, if the committers' slots are taken and the total
  -- is above their number, placing new names in a row of slots in order leaves each committer's
  -- slot as it was.
  pub first_keeps_committers :
      (p : OrchestratedParameters) (total_members n : ℕ) (names known : List String) (s : State)
      (known' : List String) (s' : State) (i : ℕ)
      → p.auth_policy ≡ AuthorizationPolicy.first
      → IsUsable p
      → p.max_active_committers < total_members
      → p.max_active_committers ≤ n
      → Ordered n p.max_active_processers known
      → Fresh names known
      → place_all r p total_members names known s ≡ returns (known', s')
      → i < p.max_active_committers
      → get_elem? known' i ≡ get_elem? known i
  unfolding place_all
  first_keeps_committers p total_members n [] known s known' s' i a u more full o f run below =
      ground arith
  first_keeps_committers p total_members n (name ∷ names) known s known' s' i a u more full o f run
        below =
      let (q, middle, drawn, pl, rest) =
        place_all-inv p total_members name names known s n known' s' u o run in
      let above =
        sample-first p.auth_policy p.max_active_committers total_members s q a more drawn in
      let (n', le, o') =
        Placed-Ordered p n q.0 p.max_active_processers known name middle o f.0 f.1 pl in
      first_keeps_committers p total_members n' names middle q.1 known' s' i a u more (omega arith)
        o' (Fresh-Placed p n q.0 known name middle names pl f.2 f.3) rest below
      ∙ Placed-kept p n q.0 known name middle full i below above pl

  place_all-nil :
      (p : OrchestratedParameters) (total_members : ℕ) (known : List String) (s : State)
      (known' : List String) (s' : State)
      → place_all r p total_members [] known s ≡ returns (known', s')
      → known ≡ known'
  unfolding place_all
  place_all-nil p total_members known s known' s' run = cc

  -- With the policy `Last` and usable parameters, if the committers' slots are taken, placing new
  -- names in a row of slots in order puts the newest member on the first slot.
  pub last_becomes_committer :
      (p : OrchestratedParameters) (total_members n : ℕ) (name : String) (names known : List String)
      (s : State) (known' : List String) (s' : State)
      → p.auth_policy ≡ AuthorizationPolicy.last
      → IsUsable p
      → p.max_active_committers ≤ n
      → Ordered n p.max_active_processers known
      → Fresh (name ∷ names) known
      → place_all r p total_members (name ∷ names) known s ≡ returns (known', s')
      → get_elem? known' 0 ≡ some (newest name names)
  last_becomes_committer p total_members n name [] known s known' s' a u full o f run =
      let (q, middle, drawn, pl, rest) =
        place_all-inv p total_members name [] known s n known' s' u o run in
      let at = sample-last p.auth_policy p.max_active_committers total_members s q a drawn in
      let first =
        Placed-first p n q.0 known name middle full (omega arith) (omega arith)
          (Filled-le n known o.filled) at pl in
      let same = place_all-nil p total_members middle q.1 known' s' rest in cc
  last_becomes_committer p total_members n name (next ∷ names) known s known' s' a u full o f run =
      let (q, middle, drawn, pl, rest) =
        place_all-inv p total_members name (next ∷ names) known s n known' s' u o run in
      let (n', le, o') =
        Placed-Ordered p n q.0 p.max_active_processers known name middle o f.0 f.1 pl in
      last_becomes_committer p total_members n' next names middle q.1 known' s' a u (omega arith) o'
        (Fresh-Placed p n q.0 known name middle (next ∷ names) pl f.2 f.3) rest

  contains-newest :
      (name : String) (names : List String) → contains (name ∷ names) (newest name names) ≡ true
  contains-newest name [] = ground (arith, ==_iff name name)
  contains-newest name (next ∷ names) = ground (arith, contains-newest next names)

  -- With the policy `Last` and one committer, in a well-formed state that has a member, a commit
  -- that adds several members whose names are not known yet leaves a client that stays active in
  -- the loop for ever: no amount of fuel ends the draw.
  pub last_policy_spins :
      (fuel : ℕ) (o : Orchestrator) (seed : Bytes) (total_members : ℕ) (a b : String)
      (names known : List String) (s : State) (here : ℕ)
      → o.auth_policy ≡ AuthorizationPolicy.last
      → o.max_active_committers ≡ 1
      → WellFormed o
      → 1 ≤ active_count o.known_members
      → 1 ≤ total_members
      → Fresh (a ∷ b ∷ names) o.known_members
      → place_all r o.parameters total_members
          (a ∷ b ∷ names)
          o.known_members
          (from_seed (seed_array seed))
        ≡ returns (known, s)
      → position known o.name ≡ some here
      → process_commit r fuel o seed total_members (a ∷ b ∷ names) ≡ spins
  last_policy_spins fuel o seed total_members a b names known s here policy one v some_member h f
        run active =
      let head =
        last_becomes_committer o.parameters total_members (active_count o.known_members) a
          (b ∷ names) o.known_members _ known s policy v.usable (omega arith) v.ordered f run in
      let o' = record o { known_members = known } in
      let single : min o.max_active_committers total_members ≡ 1 = omega arith in
      let all : AllNew (min o.max_active_committers total_members) (a ∷ b ∷ names) known =
        λ i below.
          let zeroth : i ≡ 0 = omega arith in
          (newest a (b ∷ names), rw zeroth head, contains-newest a (b ∷ names)) in
      after_place r fuel o seed total_members (a ∷ b ∷ names) known s run
      ∙ decide_active r fuel o' total_members (a ∷ b ∷ names) s here active
      ∙ rw
          (elect-spins r fuel (min o.max_active_committers total_members) (a ∷ b ∷ names) known s
            (omega arith) (omega arith) all)
          refl
