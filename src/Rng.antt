-- ===== src/Rng.antt =====
-- The random number generator `StdRng` of the crate `rand`, which the program only calls: a
-- parameter of the model, with the documented behaviour that the program relies on.
use mls_experimental_analysi.Base.{ℕ, ◌≤◌, ◌<◌, ltb, if◌then◌else◌, Bytes, Outcome, returns, panics}

pub record Rng : Type 1 where
  pub State : Type 0
  -- `SeedableRng::from_seed`
  pub from_seed : Bytes → State
  -- a draw from the range `lo..hi`, where it is not empty
  pub draw : State → ℕ → ℕ → ℕ × State
  pub draw_bounds :
      (s : State) (lo hi : ℕ) → lo < hi → (lo ≤ (draw s lo hi).0) × ((draw s lo hi).0 < hi)

module _ (r : Rng) where
  open r use {State, draw}

  -- `Rng::gen_range(lo..hi)`, which panics on an empty range.
  abbrev pub gen_range : State → ℕ → ℕ → Outcome (ℕ × State)
  gen_range s lo hi = if ltb lo hi then returns (draw s lo hi) else panics
