-- ===== src/Orchestrator/Reroll.antt =====
-- The `while` loop of `process_commit` in orchestrator.rs, which draws a committer again while it
-- is one of several new members.
use mls_experimental_analysi.Base.{
  ℕ, zero, suc, ◌+◌, ◌≤◌, ◌<◌, String, ◌≡◌, refl, true, false, some, List, arith, ltb, length,
  get_elem?, contains, string_eq, get_elem?-lt, Bool-cases, lt→ltb, ◌⊎◌, inl, inr, Outcome, returns,
  panics, spins,
}
use mls_experimental_analysi.Rng.{Rng}
use mls_experimental_analysi.Orchestrator.{reroll, elect}

-- What the loop settles on: a slot among the candidates, which no new member holds if there are
-- several of them. It never panics.
abbrev pub Elected : ℕ → List String → List String → Outcome ℕ → Type 0
Elected candidates new_members known (returns who) =
    (who < candidates)
    × (w : String) × (get_elem? known who ≡ some w)
    × ((length new_members ≤ 1) ⊎ (contains new_members w ≡ false))
Elected candidates new_members known panics = ⊥
Elected candidates new_members known spins = Unit

-- Each slot below `candidates` holds one of the new members.
abbrev pub AllNew : ℕ → List String → List String → Type 0
AllNew candidates new_members known =
    (i : ℕ)
    → i < candidates
    → (w : String) × (get_elem? known i ≡ some w) × (contains new_members w ≡ true)

module _ (r : Rng) where
  open r use {State, draw, draw_bounds}

  -- The draw from `0..n` after `k` earlier ones.
  unfoldable pub draw_at : ℕ → ℕ → State → ℕ
  draw_at zero n s = (draw s 0 n).0
  draw_at (suc k) n s = draw_at k n (draw s 0 n).1

  -- From this state on, each value of the range `0..n` is drawn at some time.
  abbrev pub DrawsAll : ℕ → State → Type 0
  DrawsAll n s = (i : ℕ) → i < n → (k : ℕ) × (draw_at k n s ≡ i)

  module _ (candidates : ℕ) (new_members known : List String) where
    reroll_few :
        (fuel who_acts : ℕ) (s : State)
        → length new_members ≤ 1
        → reroll r (suc fuel) candidates new_members known who_acts s ≡ returns who_acts
    unfolding reroll
    reroll_few fuel who_acts s few = ground arith

    reroll_old :
        (fuel who_acts : ℕ) (s : State) (w : String)
        → get_elem? known who_acts ≡ some w
        → contains new_members w ≡ false
        → reroll r (suc fuel) candidates new_members known who_acts s ≡ returns who_acts
    unfolding reroll
    reroll_old fuel who_acts s w e old = ground arith

    reroll_again :
        (fuel who_acts : ℕ) (s : State) (w : String)
        → 1 < length new_members
        → 0 < candidates
        → get_elem? known who_acts ≡ some w
        → contains new_members w ≡ true
        → reroll r (suc fuel) candidates new_members known who_acts s
          ≡ reroll r fuel candidates new_members known
              (draw s 0 candidates).0
              (draw s 0 candidates).1
    unfolding reroll
    reroll_again fuel who_acts s w several some_slot e again = ground arith

    pub reroll-Elected :
        (fuel who_acts : ℕ) (s : State)
        → candidates ≤ length known
        → who_acts < candidates
        → Elected candidates new_members known
            (reroll r fuel candidates new_members known who_acts s)
    unfolding reroll
    reroll-Elected zero who_acts s room h = tt
    reroll-Elected (suc fuel) who_acts s room h =
        let (w, e) = get_elem?-lt known who_acts (omega arith) in
        elim (Bool-cases (ltb 1 (length new_members))) [
          | inr few ↦ rw (reroll_few fuel who_acts s (ground arith)) (h, w, e, inl (ground arith))
          | inl several ↦ elim (Bool-cases (contains new_members w)) [
            | inr old ↦ rw (reroll_old fuel who_acts s w e old) (h, w, e, inr old)
            | inl again ↦ rw (reroll_again fuel who_acts s w (ground arith) (omega arith) e again) (
                reroll-Elected fuel (draw s 0 candidates).0 (draw s 0 candidates).1 room
                  (draw_bounds s 0 candidates (omega arith)).1)
          ]
        ]

    abbrev Ends : ℕ → ℕ → State → Type 0
    Ends fuel who_acts s =
        (who : ℕ) × (reroll r fuel candidates new_members known who_acts s ≡ returns who)

    reroll_step :
        (fuel who_acts : ℕ) (s : State)
        → candidates ≤ length known
        → who_acts < candidates
        → Ends fuel (draw s 0 candidates).0 (draw s 0 candidates).1
        → Ends (suc fuel) who_acts s
    reroll_step fuel who_acts s room h rest =
        let (v, f) = get_elem?-lt known who_acts (omega arith) in
        elim (Bool-cases (ltb 1 (length new_members))) [
          | inr few ↦ (who_acts, reroll_few fuel who_acts s (ground arith))
          | inl several ↦ elim (Bool-cases (contains new_members v)) [
            | inr other ↦ (who_acts, reroll_old fuel who_acts s v f other)
            | inl again ↦
                rw (reroll_again fuel who_acts s v (ground arith) (omega arith) f again) rest
          ]
        ]

    -- Once the generator comes to a slot that no new member holds, the loop has ended.
    pub reroll-returns :
        (k fuel who_acts : ℕ) (s : State) (w : String)
        → k + 2 ≤ fuel
        → candidates ≤ length known
        → who_acts < candidates
        → get_elem? known (draw_at k candidates s) ≡ some w
        → contains new_members w ≡ false
        → Ends fuel who_acts s
    unfolding draw_at
    reroll-returns zero zero who_acts s w enough room h e old = absurd (omega arith)
    reroll-returns zero (suc zero) who_acts s w enough room h e old = absurd (omega arith)
    reroll-returns zero (suc (suc fuel)) who_acts s w enough room h e old =
        reroll_step (suc fuel) who_acts s room h (
          (draw s 0 candidates).0,
          reroll_old fuel (draw s 0 candidates).0 (draw s 0 candidates).1 w e old,
        )
    reroll-returns (suc k) zero who_acts s w enough room h e old = absurd (omega arith)
    reroll-returns (suc k) (suc fuel) who_acts s w enough room h e old =
        reroll_step fuel who_acts s room h (
          reroll-returns k fuel (draw s 0 candidates).0 (draw s 0 candidates).1 w (omega arith) room
            (draw_bounds s 0 candidates (omega arith)).1 e old)

    -- With several new members on all the candidates' slots it never ends.
    pub reroll-spins :
        (fuel who_acts : ℕ) (s : State)
        → 1 < length new_members
        → who_acts < candidates
        → AllNew candidates new_members known
        → reroll r fuel candidates new_members known who_acts s ≡ spins
    unfolding reroll
    reroll-spins zero who_acts s several h all = refl
    reroll-spins (suc fuel) who_acts s several h all =
        let (w, e, new) = all who_acts h in
        rw (reroll_again fuel who_acts s w several (omega arith) e new) (
          reroll-spins fuel (draw s 0 candidates).0 (draw s 0 candidates).1 several
            (draw_bounds s 0 candidates (omega arith)).1 all)

    -- Where two amounts of fuel are enough, they give the same winner.
    pub reroll_agree :
        (fuel fuel' who_acts : ℕ) (s : State) (a b : ℕ)
        → reroll r fuel candidates new_members known who_acts s ≡ returns a
        → reroll r fuel' candidates new_members known who_acts s ≡ returns b
        → a ≡ b
    unfolding reroll
    reroll_agree zero fuel' who_acts s a b ea eb = cc
    reroll_agree (suc fuel) zero who_acts s a b ea eb = cc
    reroll_agree (suc fuel) (suc fuel') who_acts s a b ea eb =
        ground (arith, reroll_agree fuel fuel' (draw s 0 candidates).0 (draw s 0 candidates).1 a b)

  pub elect_agree :
      (fuel fuel' candidates : ℕ) (new_members known : List String) (s : State) (a b : ℕ)
      → elect r fuel candidates new_members known s ≡ returns a
      → elect r fuel' candidates new_members known s ≡ returns b
      → a ≡ b
  unfolding elect
  elect_agree fuel fuel' candidates new_members known s a b ea eb = ground (
    arith,
    reroll_agree candidates new_members known fuel fuel' (draw s 0 candidates).0
        (draw s 0 candidates).1 a b,
  )

  -- `elect` with the first draw: it settles on a candidate's slot, or runs out of fuel.
  pub elect-Elected :
      (fuel candidates : ℕ) (new_members known : List String) (s : State)
      → 1 ≤ candidates
      → candidates ≤ length known
      → Elected candidates new_members known (elect r fuel candidates new_members known s)
  unfolding elect
  elect-Elected fuel candidates new_members known s some_slot room =
      rw (lt→ltb 0 candidates some_slot) (
        reroll-Elected candidates new_members known fuel (draw s 0 candidates).0
          (draw s 0 candidates).1 room (draw_bounds s 0 candidates some_slot).1)

  -- Once the generator comes to a candidate that is not new, the draws end.
  elect-hit :
      (k fuel candidates : ℕ) (new_members known : List String) (s : State) (w : String)
      → k + 1 ≤ fuel
      → 0 < candidates
      → candidates ≤ length known
      → get_elem? known (draw_at k candidates s) ≡ some w
      → contains new_members w ≡ false
      → (who : ℕ) × (elect r fuel candidates new_members known s ≡ returns who)
  unfolding elect draw_at
  elect-hit zero zero candidates new_members known s w enough some_slot room e old =
      absurd (omega arith)
  elect-hit zero (suc fuel) candidates new_members known s w enough some_slot room e old =
      rw (lt→ltb 0 candidates some_slot) (
        (draw s 0 candidates).0,
        reroll_old candidates new_members known fuel (draw s 0 candidates).0 (draw s 0 candidates).1
            w e old,
      )
  elect-hit (suc k) fuel candidates new_members known s w enough some_slot room e old =
      rw (lt→ltb 0 candidates some_slot) (
        reroll-returns candidates new_members known k fuel (draw s 0 candidates).0
          (draw s 0 candidates).1 w (omega arith) room (draw_bounds s 0 candidates some_slot).1 e
          old)

  -- If each candidate's slot is drawn at some time and one of them is not new, some amount of fuel
  -- is enough, and so is every larger one.
  pub elect-returns :
      (candidates : ℕ) (new_members known : List String) (s : State) (i : ℕ) (w : String)
      → DrawsAll candidates s
      → candidates ≤ length known
      → i < candidates
      → get_elem? known i ≡ some w
      → contains new_members w ≡ false
      → (bound : ℕ) × ((fuel : ℕ)
          → bound ≤ fuel
          → (who : ℕ) × (elect r fuel candidates new_members known s ≡ returns who))
  elect-returns candidates new_members known s i w draws room h e old =
      let (k, hit) = draws i h in
      (
        k + 1,
        λ fuel enough.
            elect-hit k fuel candidates new_members known s w enough (omega arith) room (rw hit e)
              old,
      )

  -- With one new member at most, the first draw decides.
  pub elect-returns_few :
      (fuel candidates : ℕ) (new_members known : List String) (s : State)
      → 1 ≤ fuel
      → 1 ≤ candidates
      → length new_members ≤ 1
      → elect r fuel candidates new_members known s ≡ returns (draw s 0 candidates).0
  unfolding elect
  elect-returns_few zero candidates new_members known s some_fuel some_slot few =
      absurd (omega arith)
  elect-returns_few (suc fuel) candidates new_members known s some_fuel some_slot few =
      rw (lt→ltb 0 candidates some_slot) (
        reroll_few candidates new_members known fuel (draw s 0 candidates).0 (draw s 0 candidates).1
          few)

  pub elect-spins :
      (fuel candidates : ℕ) (new_members known : List String) (s : State)
      → 1 < length new_members
      → 1 ≤ candidates
      → AllNew candidates new_members known
      → elect r fuel candidates new_members known s ≡ spins
  unfolding elect
  elect-spins fuel candidates new_members known s several some_slot all =
      rw (lt→ltb 0 candidates some_slot) (
        reroll-spins candidates new_members known fuel (draw s 0 candidates).0
          (draw s 0 candidates).1 several (draw_bounds s 0 candidates some_slot).1 all)
