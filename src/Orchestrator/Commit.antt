-- ===== src/Orchestrator/Commit.antt =====
-- `process_commit` of orchestrator.rs as a whole.
use mls_experimental_analysi.Base.{
  ℕ, ◌≤◌, ◌<◌, min, String, ◌≡◌, refl, ◌∙◌, subst, false, List, arith, Bytes, length, contains,
  string_eq, ◌⊎◌, inl, inr, Outcome, returns, panics, spins, ◌>>=◌, Option-cases, Bool-cases, ltb,
}
use mls_experimental_analysi.Rng.{Rng}
use mls_experimental_analysi.Orchestrator.{
  Orchestrator, NextAction, place_all, elect, decide, settle, process_commit, active_position,
  seed_array,
}
use mls_experimental_analysi.Orchestrator.Slots.{Distinct}
use mls_experimental_analysi.Orchestrator.Safety.{
  Fresh, InOrder, WellFormed, Kept, Keeps, WellFormed-has_gap, place_all-returns, decide_inactive,
  decide_active, settle-WellFormed,
}
use mls_experimental_analysi.Orchestrator.Reroll.{
  Elected, DrawsAll, elect-Elected, elect-returns, elect-returns_few,
}
use mls_experimental_analysi.Orchestrator.Candidates.{Fresh-named, old_candidate}

module _ (r : Rng) where
  open r use {State, from_seed}

  -- The placement that `process_commit` begins with.
  pub placed :
      (o : Orchestrator) (seed : Bytes) (total_members : ℕ) (new_members : List String)
      → WellFormed o
      → 1 ≤ total_members
      → Fresh new_members o.known_members
      → (known : List String) × (s : State) × (place_all r o.parameters total_members new_members
            o.known_members
            (from_seed (seed_array seed))
          ≡ returns (known, s))
        × InOrder o.parameters known
  placed o seed total_members new_members v h f =
      place_all-returns r o.parameters total_members _ new_members o.known_members _ v.usable h
        v.ordered f

  pub after_place :
      (fuel : ℕ) (o : Orchestrator) (seed : Bytes) (total_members : ℕ) (new_members : List String)
      (known : List String) (s : State)
      → place_all r o.parameters total_members new_members o.known_members
          (from_seed (seed_array seed))
        ≡ returns (known, s)
      → process_commit r fuel o seed total_members new_members
        ≡ decide r fuel (record o { known_members = known }) total_members new_members s
  unfolding process_commit
  after_place fuel o seed total_members new_members known s e = rw e refl

  settle-Keeps :
      (o : Orchestrator) (new_members : List String) (here : ℕ) (m : Outcome ℕ) (c : ℕ)
      (known : List String)
      → WellFormed o
      → Elected c new_members known m
      → Keeps o (m >>= λ who_acts. returns (settle o new_members here who_acts))
  settle-Keeps o new_members here (returns who) c known v h =
      settle-WellFormed r o new_members here who v
  settle-Keeps o new_members here panics c known v h = h
  settle-Keeps o new_members here spins c known v h = tt

  decide-Keeps :
      (fuel : ℕ) (o : Orchestrator) (total_members : ℕ) (new_members : List String) (s : State)
      → WellFormed o
      → 1 ≤ total_members
      → Keeps o (decide r fuel o total_members new_members s)
  decide-Keeps fuel o total_members new_members s v h = elim (Option-cases (active_position o)) [
    | inl e ↦
        rw (decide_inactive r fuel o total_members new_members s e)
          (v, refl, refl, WellFormed-has_gap o v)
    | inr (here, e) ↦ rw (decide_active r fuel o total_members new_members s here e) (
        settle-Keeps o new_members here _ (min o.max_active_committers total_members)
          o.known_members v
          (elect-Elected r fuel (min o.max_active_committers total_members) new_members
            o.known_members s (omega (arith, v.usable.some_committer))
            (omega (arith, v.usable.fits, v.ordered.sized))))
  ]

  -- In a well-formed state, for at least one member and new names that are not known yet,
  -- `process_commit` never panics, whatever the fuel; where it returns, the state is well-formed
  -- again, the name and the parameters are as they were, and the test for an empty slot before a
  -- member fails.
  pub process_commit-Keeps :
      (fuel : ℕ) (o : Orchestrator) (seed : Bytes) (total_members : ℕ) (new_members : List String)
      → WellFormed o
      → 1 ≤ total_members
      → Fresh new_members o.known_members
      → Keeps o (process_commit r fuel o seed total_members new_members)
  process_commit-Keeps fuel o seed total_members new_members v h f =
      let (known, s, e, ordered) = placed o seed total_members new_members v h f in
      rw (after_place fuel o seed total_members new_members known s e) (
        decide-Keeps fuel (record o { known_members = known }) total_members new_members s
          (record { usable = v.usable; ordered = ordered }) h)

  elect_enough :
      (candidates : ℕ) (new_members known : List String) (s : State)
      → (1 < length new_members → DrawsAll r candidates s)
      → 1 ≤ candidates
      → candidates ≤ length known
      → Distinct known
      → contains new_members "" ≡ false
      → (length new_members ≤ 1) ⊎ (length new_members < candidates)
      → (bound : ℕ) × ((fuel : ℕ)
          → bound ≤ fuel
          → (who : ℕ) × (elect r fuel candidates new_members known s ≡ returns who))
  elect_enough candidates new_members known s draws h room d named (inl one) =
      (1, λ fuel enough. (_, elect-returns_few r fuel candidates new_members known s enough h one))
  elect_enough candidates new_members known s draws h room d named (inr few) =
      elim (Bool-cases (ltb 1 (length new_members))) [
        | inl several ↦
            let (i, w, below, e, old) =
              old_candidate candidates new_members known room d named few in
            elect-returns r candidates new_members known s i w (draws (ground arith)) room below e
              old
        | inr one ↦ (
          1,
          λ fuel enough.
              (_, elect-returns_few r fuel candidates new_members known s enough h (ground arith)),
        )
      ]

  decide_enough :
      (o : Orchestrator) (total_members : ℕ) (new_members : List String) (s : State)
      → (1 < length new_members → DrawsAll r (min o.max_active_committers total_members) s)
      → WellFormed o
      → 1 ≤ total_members
      → contains new_members "" ≡ false
      → (length new_members ≤ 1) ⊎ (length new_members < min o.max_active_committers total_members)
      → (bound : ℕ) × ((fuel : ℕ)
          → bound ≤ fuel
          → (q : Orchestrator × NextAction) × (decide r fuel o total_members new_members s
              ≡ returns q))
  decide_enough o total_members new_members s draws v h named few =
      elim (Option-cases (active_position o)) [
        | inl e ↦ (0, λ fuel _. (_, decide_inactive r fuel o total_members new_members s e))
        | inr (here, e) ↦
            let (bound, run) =
              elect_enough (min o.max_active_committers total_members) new_members o.known_members s
                draws (omega (arith, v.usable.some_committer))
                (omega (arith, v.usable.fits, v.ordered.sized)) v.ordered.distinct named few in
            (
              bound,
              λ fuel enough.
                  let (who, won) = run fuel enough in
                  (
                    settle o new_members here who,
                    rw (decide_active r fuel o total_members new_members s here e, won) refl,
                  ),
            )
      ]

  -- In a well-formed state, for at least one member and new names that are not known yet,
  -- `process_commit` returns with every fuel from some bound on, and keeps what `Kept` lists, if
  -- the new members are at most one, or if they are fewer than the candidates for the next
  -- committer and, from where the placing leaves the generator of this seed, each candidate's slot
  -- is drawn at some time.
  pub process_commit-returns :
      (o : Orchestrator) (seed : Bytes) (total_members : ℕ) (new_members : List String)
      → WellFormed o
      → 1 ≤ total_members
      → Fresh new_members o.known_members
      → (length new_members ≤ 1) ⊎ (length new_members < min o.max_active_committers total_members)
      → ((known : List String) (s : State)
          → place_all r o.parameters total_members new_members o.known_members
              (from_seed (seed_array seed))
            ≡ returns (known, s)
          → 1 < length new_members
          → DrawsAll r (min o.max_active_committers total_members) s)
      → (bound : ℕ) × ((fuel : ℕ)
          → bound ≤ fuel
          → (q : Orchestrator × NextAction) × (process_commit r fuel o seed total_members
                new_members
              ≡ returns q)
            × Kept o q)
  process_commit-returns o seed total_members new_members v h f few draws =
      let (known, s, e, ordered) = placed o seed total_members new_members v h f in
      let (bound, run) =
        decide_enough (record o { known_members = known }) total_members new_members s
          (draws known s e) (record { usable = v.usable; ordered = ordered }) h
          (Fresh-named new_members o.known_members f) few in
      (
        bound,
        λ fuel enough.
            let (q, won) = run fuel enough in
            let done = after_place fuel o seed total_members new_members known s e ∙ won in
            (
              q,
              done,
              subst (Keeps o) done
                  (process_commit-Keeps fuel o seed total_members new_members v h f),
            ),
      )
