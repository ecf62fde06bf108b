-- ===== src/Orchestrator/Election.antt =====
-- The clients of a group run `process_commit` of orchestrator.rs each on its own, with the same
-- seed: who commits next.
use mls_experimental_analysi.Base.{
  ℕ, min, String, ◌≡◌, refl, sym, ◌∙◌, ap, ◌≢◌, none, some, List, arith, Bytes, get_elem?,
  string_eq, nat_eq, ◌==◌, position, ◌⊎◌, inl, inr, returns, >>=-eq-returns, Option-cases,
  if◌then◌else◌,
}
use mls_experimental_analysi.Rng.{Rng}
use mls_experimental_analysi.Orchestrator.{
  Orchestrator, NextAction, place_all, elect, decide, settle, process_commit, active_position,
  seed_array, expected_acks,
}
use mls_experimental_analysi.Orchestrator.Slots.{position-get}
use mls_experimental_analysi.Orchestrator.Reroll.{elect_agree}
use mls_experimental_analysi.Orchestrator.Commit.{after_place}
use mls_experimental_analysi.Orchestrator.Safety.{decide_inactive, decide_active}

-- The same view of the group, under another name.
abbrev pub SameView : Orchestrator → Orchestrator → Type 0
SameView a b = (a.parameters ≡ b.parameters) × (a.known_members ≡ b.known_members)

settle-listens :
    (o : Orchestrator) (new_members : List String) (here who : ℕ)
    → here ≢ who
    → settle o new_members here who ≡ (o, NextAction.listen)
unfolding settle
settle-listens o new_members here who ne = ground arith

settle-commit :
    (o : Orchestrator) (new_members : List String) (here who : ℕ)
    → (settle o new_members here who).1 ≡ NextAction.commit
    → here ≡ who
unfolding settle
settle-commit o new_members here who e = ground arith

settle-known_members :
    (o : Orchestrator) (new_members : List String) (here who : ℕ)
    → (settle o new_members here who).0.known_members ≡ o.known_members
unfolding settle
settle-known_members o new_members here who = ground arith

pub settle-elected :
    (o : Orchestrator) (new_members : List String) (here : ℕ)
    → settle o new_members here here ≡ (
      record o { pending_acks = expected_acks o.name new_members },
      if expected_acks o.name new_members == 0 then NextAction.commit else NextAction.listen,
    )
unfolding settle
settle-elected o new_members here = ground arith

module _ (r : Rng) where
  open r use {State, from_seed}

  -- How an election that returned went: the client is inactive, or its slot met the winner's.
  pub decide-inv :
      (fuel : ℕ) (o : Orchestrator) (total_members : ℕ) (new_members : List String) (s : State)
      (q : Orchestrator × NextAction)
      → decide r fuel o total_members new_members s ≡ returns q
      → ((active_position o ≡ none) × (q ≡ (o, NextAction.inactive)))
        ⊎ ((here : ℕ) × (who : ℕ) × (active_position o ≡ some here)
            × (elect r fuel
                  (min o.max_active_committers total_members)
                  new_members
                  o.known_members
                  s
                ≡ returns who)
            × (q ≡ settle o new_members here who))
  decide-inv fuel o total_members new_members s q e = elim (Option-cases (active_position o)) [
    | inl out ↦
        let stop = sym (decide_inactive r fuel o total_members new_members s out) ∙ e in
        inl (out, cc)
    | inr (here, at) ↦
        let run = sym (decide_active r fuel o total_members new_members s here at) ∙ e in
        let (who, won, end) =
          >>=-eq-returns _ (λ who. returns (settle o new_members here who)) run in
        inr (here, who, at, won, cc)
  ]

  pub decide-known_members :
      (fuel : ℕ) (o : Orchestrator) (total_members : ℕ) (new_members : List String) (s : State)
      (q : Orchestrator × NextAction)
      → decide r fuel o total_members new_members s ≡ returns q
      → q.0.known_members ≡ o.known_members
  decide-known_members fuel o total_members new_members s q e =
      elim (decide-inv fuel o total_members new_members s q e) [
        | inl (_, out) ↦ rw out refl
        | inr (here, who, _, _, end) ↦ rw end (settle-known_members o new_members here who)
      ]

  process_commit-inv :
      (fuel : ℕ) (o : Orchestrator) (seed : Bytes) (total_members : ℕ) (new_members : List String)
      (q : Orchestrator × NextAction)
      → process_commit r fuel o seed total_members new_members ≡ returns q
      → (known : List String) × (s : State) × (place_all r o.parameters total_members new_members
            o.known_members
            (from_seed (seed_array seed))
          ≡ returns (known, s))
        × (decide r fuel (record o { known_members = known }) total_members new_members s
            ≡ returns q)
  unfolding process_commit
  process_commit-inv fuel o seed total_members new_members q e =
      let ((known, s), run, end) = >>=-eq-returns _ _ e in (known, s, run, end)

  -- The committer of a call that told its client to commit.
  commit-inv :
      (fuel : ℕ) (o : Orchestrator) (total_members : ℕ) (new_members : List String) (s : State)
      (q : Orchestrator × NextAction)
      → decide r fuel o total_members new_members s ≡ returns q
      → q.1 ≡ NextAction.commit
      → (who : ℕ) × (elect r fuel
            (min o.max_active_committers total_members)
            new_members
            o.known_members
            s
          ≡ returns who)
        × (get_elem? o.known_members who ≡ some o.name)
  commit-inv fuel o total_members new_members s q e c =
      elim (decide-inv fuel o total_members new_members s q e) [
        | inl (_, out) ↦ absurd (cc)
        | inr (here, who, at, won, end) ↦
            let same = settle-commit o new_members here who (ap (λ t. t.1) (sym end) ∙ c) in
            (who, won, position-get o.known_members o.name who (at ∙ ap some same))
      ]

  -- The same draw over the same slots has one winner.
  one_winner :
      (fuel fuel' c c' : ℕ) (new_members known known' : List String) (s s' : State) (who who' : ℕ)
      (x y : String)
      → c ≡ c'
      → known ≡ known'
      → s ≡ s'
      → elect r fuel c new_members known s ≡ returns who
      → elect r fuel' c' new_members known' s' ≡ returns who'
      → get_elem? known who ≡ some x
      → get_elem? known' who' ≡ some y
      → x ≡ y
  one_winner fuel fuel' c c' new_members known known' s s' who who' x y ec ek es won won' at at' =
      let shared : elect r fuel' c new_members known s ≡ returns who' = cc in
      let same = elect_agree r fuel fuel' c new_members known s who who' won shared in cc

  module _ (fuel fuel' : ℕ) (a b : Orchestrator) (seed : Bytes) (total_members : ℕ)
      (new_members : List String) (qa qb : Orchestrator × NextAction) (view : SameView a b)
      (run_a : process_commit r fuel a seed total_members new_members ≡ returns qa)
      (run_b : process_commit r fuel' b seed total_members new_members ≡ returns qb) where
    -- If two clients with the same parameters and known members run `process_commit` on the same
    -- seed, total and new members, and both runs return, then they know the same members
    -- afterwards, whatever their names, their pending acknowledgements and the fuel.
    pub known_members_agree : qa.0.known_members ≡ qb.0.known_members
    known_members_agree =
        let (known, s, pa, da) =
          process_commit-inv fuel a seed total_members new_members qa run_a in
        let (known', s', pb, db) =
          process_commit-inv fuel' b seed total_members new_members qb run_b in
        let ka = decide-known_members fuel _ total_members new_members s qa da in
        let kb = decide-known_members fuel' _ total_members new_members s' qb db in
        cc (view.0, view.1)

    -- If two clients with the same parameters and known members run `process_commit` on the same
    -- seed, total and new members, both runs return, and both are told to commit, then the two have
    -- the same name: at most one client commits.
    pub at_most_one_committer :
        qa.1 ≡ NextAction.commit → qb.1 ≡ NextAction.commit → a.name ≡ b.name
    at_most_one_committer ca cb =
        let (known, s, pa, da) =
          process_commit-inv fuel a seed total_members new_members qa run_a in
        let (known', s', pb, db) =
          process_commit-inv fuel' b seed total_members new_members qb run_b in
        let (who, won, at) = commit-inv fuel _ total_members new_members s qa da ca in
        let (who', won', at') = commit-inv fuel' _ total_members new_members s' qb db cb in
        one_winner fuel fuel' _ _ new_members known known' s s' who who' a.name b.name (cc (view.0))
          (cc (view.0, view.1, pa, pb)) (cc (view.0, view.1, pa, pb)) won won' at at'

  module _ (fuel : ℕ) (o : Orchestrator) (seed : Bytes) (total_members : ℕ)
      (new_members : List String) (known : List String) (s : State) (who : ℕ)
      (place_run : place_all r o.parameters total_members new_members o.known_members
          (from_seed (seed_array seed))
        ≡ returns (known, s))
      (elect_run : elect r fuel (min o.max_active_committers total_members) new_members known s
        ≡ returns who) where
    -- Where the placing and the election return, a client on any other slot than the winning one,
    -- or on none, is not told to commit, and its pending acknowledgements stay as they were.
    pub others_listen :
        get_elem? known who ≢ some o.name
        → (q : Orchestrator × NextAction) × (process_commit r fuel o seed total_members new_members
            ≡ returns q)
          × (q.1 ≢ NextAction.commit)
          × (q.0.pending_acks ≡ o.pending_acks)
    others_listen far =
        let o' = record o { known_members = known } in
        let start = after_place r fuel o seed total_members new_members known s place_run in
        elim (Option-cases (position known o.name)) [
          | inl out ↦ (
            (o', NextAction.inactive),
            start ∙ decide_inactive r fuel o' total_members new_members s out,
            (λ e. cc),
            refl,
          )
          | inr (here, at) ↦ (
            (o', NextAction.listen),
            start
                ∙ decide_active r fuel o' total_members new_members s here at
                ∙ rw elect_run (
                    rw
                      (settle-listens o' new_members here who
                        (λ same. far (position-get known o.name who (at ∙ ap some same))))
                      refl),
            (λ e. cc),
            refl,
          )
        ]
