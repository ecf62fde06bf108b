-- ===== src/Orchestrator/Winner.antt =====
-- The client on the winning slot when `process_commit` of orchestrator.rs returns: who acts next.
use mls_experimental_analysi.Base.{
  ℕ, ◌≤◌, ◌==◌, nat_eq, min, String, ◌≡◌, refl, sym, ◌∙◌, ap, subst, ◌≢◌, true, false, some, List,
  arith, Bytes, length, get_elem?, contains, string_eq, position, ◌⊎◌, inl, inr, returns,
  Bool-cases,
}
use mls_experimental_analysi.Rng.{Rng}
use mls_experimental_analysi.Orchestrator.{
  Orchestrator, NextAction, active_count, elect, decide, settle, process_commit, expected_acks,
}
use mls_experimental_analysi.Orchestrator.Slots.{Filled-member, position-Distinct, contains_of_get}
use mls_experimental_analysi.Orchestrator.Safety.{Fresh, InOrder, WellFormed, decide_active}
use mls_experimental_analysi.Orchestrator.Reroll.{elect-Elected, Elected}
use mls_experimental_analysi.Orchestrator.Commit.{placed, after_place}
use mls_experimental_analysi.Orchestrator.Election.{
  decide-inv, decide-known_members, settle-elected,
}

-- The same orchestrator at the client of another name.
abbrev pub at_client : Orchestrator → String → Orchestrator
at_client o w = record o { name = w }

-- A client that commits now, or once it has the acknowledgements that it waits for.
abbrev pub CommitsNext : Orchestrator × NextAction → Type 0
CommitsNext (o, action) = (action ≡ NextAction.commit) ⊎ (1 ≤ o.pending_acks)

settle-CommitsNext :
    (o : Orchestrator) (new_members : List String) (here : ℕ)
    → CommitsNext (settle o new_members here here)
settle-CommitsNext o new_members here =
    rw (settle-elected o new_members here)
      (elim (Bool-cases (expected_acks o.name new_members == 0)) [
        | inl none_left ↦ inl (rw none_left refl)
        | inr some_left ↦ inr (ground arith)
      ])

module _ (r : Rng) where
  open r use {State}

  -- The election over slots in order has a winner among the members of the first slots.
  elect-winner :
      (fuel candidates : ℕ) (o : Orchestrator) (new_members : List String) (s : State) (who : ℕ)
      → InOrder o.parameters o.known_members
      → 1 ≤ candidates
      → candidates ≤ active_count o.known_members
      → candidates ≤ length o.known_members
      → elect r fuel candidates new_members o.known_members s ≡ returns who
      → (w : String) × (w ≢ "")
        × (get_elem? o.known_members who ≡ some w)
        × (position o.known_members w ≡ some who)
        × ((length new_members ≤ 1) ⊎ (contains new_members w ≡ false))
  elect-winner fuel candidates o new_members s who d h full room won =
      let (below, w, at, old) =
        subst (Elected candidates new_members o.known_members) won
          (elect-Elected r fuel candidates new_members o.known_members s h room) in
      let named =
        Filled-member (active_count o.known_members) o.known_members who w d.filled (omega arith)
          at in
      (w, named, at, position-Distinct o.known_members w who d.distinct at named, old)

  decide-CommitsNext :
      (fuel : ℕ) (o : Orchestrator) (total_members : ℕ) (new_members : List String) (s : State)
      (who : ℕ)
      → position o.known_members o.name ≡ some who
      → elect r fuel (min o.max_active_committers total_members) new_members o.known_members s
        ≡ returns who
      → (q : Orchestrator × NextAction) × (decide r fuel o total_members new_members s ≡ returns q)
        × CommitsNext q
  decide-CommitsNext fuel o total_members new_members s who at won = (
    settle o new_members who who,
    decide_active r fuel o total_members new_members s who at ∙ rw won refl,
    settle-CommitsNext o new_members who,
  )

  -- In a well-formed state, for at least one member and new names that are not known yet, if
  -- `process_commit` returns to an active client and there are at least as many active members
  -- afterwards as candidates for the next committer, then one of these members, which is not new if
  -- there are several new members, acts: `process_commit` on the same view, seed, total and new
  -- members returns to it too, and tells it to commit or leaves it with acknowledgements to wait
  -- for.
  pub some_client_acts :
      (fuel : ℕ) (o : Orchestrator) (seed : Bytes) (total_members : ℕ) (new_members : List String)
      (q : Orchestrator × NextAction)
      → WellFormed o
      → 1 ≤ total_members
      → Fresh new_members o.known_members
      → process_commit r fuel o seed total_members new_members ≡ returns q
      → q.1 ≢ NextAction.inactive
      → min o.max_active_committers total_members ≤ active_count q.0.known_members
      → (w : String) × (w ≢ "")
        × (contains q.0.known_members w ≡ true)
        × ((length new_members ≤ 1) ⊎ (contains new_members w ≡ false))
        × (q' : Orchestrator × NextAction) × (process_commit r fuel
              (at_client o w)
              seed
              total_members
              new_members
            ≡ returns q')
        × CommitsNext q'
  some_client_acts fuel o seed total_members new_members q v h f run active full =
      let (known, s, e, ordered) = placed r o seed total_members new_members v h f in
      let o' = record o { known_members = known } in
      let decided = sym (after_place r fuel o seed total_members new_members known s e) ∙ run in
      let same : q.0.known_members ≡ known =
        decide-known_members r fuel o' total_members new_members s q decided in
      elim (decide-inv r fuel o' total_members new_members s q decided) [
        | inl (_, out) ↦ absurd (active (ap (λ t. t.1) out))
        | inr (here, who, at, won, end) ↦
            let (w, named, at_w, place, old) =
              elect-winner fuel (min o.max_active_committers total_members) o' new_members s who
                ordered (omega (arith, v.usable.some_committer))
                (subst (λ m. min o.max_active_committers total_members ≤ active_count m) same full)
                (omega (arith, v.usable.fits, ordered.sized)) won in
            let (q', done, acts) =
              decide-CommitsNext fuel (at_client o' w) total_members new_members s who place won in
            (
              w,
              named,
              ap (λ m. contains m w) same ∙ contains_of_get known who w at_w,
              old,
              q',
              after_place r fuel (at_client o w) seed total_members new_members known s e ∙ done,
              acts,
            )
      ]
