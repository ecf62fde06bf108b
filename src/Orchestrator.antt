-- ===== src/Orchestrator.antt =====
-- The committer election of an orchestrated client:
-- emulated_client/emulated_client/src/orchestrator.rs. The log lines are left out, but for the
-- test behind the error "Inconsistent state", which is `has_gap`.
use mls_experimental_analysi.Base.{
  ℕ, zero, suc, ◌-◌, ◌<◌, min, String, ◌≡◌, Bool, true, false, ◌&&◌, not, Option, none, some, List,
  [], ◌∷◌, ◌++◌, ltb, if◌then◌else◌, ◌==◌, nat_eq, string_eq, Bytes, length, get_elem?, set, take,
  replicate, resize, retain, contains, position, Outcome, returns, panics, spins, ◌>>=◌,
}
pub mod Slots
pub mod Placement
pub mod Safety
pub mod Reroll
pub mod Candidates
pub mod Commit
pub mod Election
pub mod Winner
pub mod Removal
pub mod Acks
pub mod Policies
mod Tests
use mls_experimental_analysi.Config.{AuthorizationPolicy, OrchestratedParameters}
use mls_experimental_analysi.Rng.{Rng, gen_range}

pub data NextAction : Type 0 where
  inactive listen commit : NextAction

pub record Orchestrator : Type 0 where
  pub name : String
  pub pending_acks : ℕ
  pub parameters : OrchestratedParameters
  pub open parameters use *
  pub known_members : List String

-- `Orchestrator::new`
unfoldable pub new : String → OrchestratedParameters → List String → Orchestrator
new name parameters known_members = record {
  name = name;
  pending_acks = 0;
  parameters = parameters;
  known_members = resize parameters.max_active_processers "" known_members;
}

-- `filter(|x| *x != "").count()`
unfoldable pub active_count : List String → ℕ
active_count [] = 0
active_count (x ∷ xs) = let rest = active_count xs in if x == "" then rest else suc rest

-- `xs[i]` and `xs[i] = v`, which panic out of bounds.
abbrev pub read_at : List String → ℕ → Outcome String
read_at xs i = elim (get_elem? xs i) [ none ↦ panics | some x ↦ returns x ]

abbrev pub write_at : List String → ℕ → String → Outcome (List String)
write_at xs i v = if ltb i (length xs) then returns (set xs i v) else panics

-- The seed, cut or filled up with zeros to 32 bytes.
abbrev pub seed_array : Bytes → Bytes
seed_array seed = let n = min (length seed) 32 in take n seed ++ replicate (32 - n) 0

-- The branches of the reservoir for a drawn `sample`: where a new member goes.
unfoldable pub place : OrchestratedParameters → List String → String → ℕ → Outcome (List String)
unfolding active_count
place p known name sample =
    let new_position = active_count known in
    if ltb new_position p.max_active_committers
    then write_at known new_position name
    else if ltb sample p.max_active_processers
    then (do
      previous_member ← read_at known sample
      moved ←
          if not (previous_member == "") && ltb new_position p.max_active_processers
          then write_at known new_position previous_member
          else returns known
      write_at moved (min new_position sample) name)
    else returns known

-- `iter().position(|x| x == name)` in the state `known_members`.
abbrev pub active_position : Orchestrator → Option ℕ
active_position o = position o.known_members o.name

-- The number of acknowledgements that the next committer waits for.
unfoldable pub expected_acks : String → List String → ℕ
expected_acks name [] = 0
expected_acks name (x ∷ xs) =
    let rest = expected_acks name xs in if x == name then rest else suc rest

-- What the client at `active_position` does once `who_acts` is drawn.
unfoldable pub settle : Orchestrator → List String → ℕ → ℕ → Orchestrator × NextAction
unfolding expected_acks
settle o new_members active_position who_acts =
    if active_position == who_acts
    then (let acks = expected_acks o.name new_members in
        (record o { pending_acks = acks }, if acks == 0 then commit else listen))
    else (o, listen)

module _ (r : Rng) where
  open r use {State, from_seed}

  -- The draw of the authorisation policy. `total_members - 1` underflows at 0: the range is then
  -- empty whether the subtraction panics or wraps.
  unfoldable pub sample_position : AuthorizationPolicy → ℕ → ℕ → State → Outcome (ℕ × State)
  sample_position AuthorizationPolicy.first max_active_committers total_members s =
      gen_range r s (min max_active_committers (total_members - 1)) total_members
  sample_position AuthorizationPolicy.last max_active_committers total_members s = returns (0, s)
  sample_position AuthorizationPolicy.random max_active_committers total_members s =
      gen_range r s 0 total_members

  -- The loop over `new_members`: reservoir sampling.
  unfoldable pub place_all :
      OrchestratedParameters → ℕ → List String → List String → State → Outcome (List String × State)
  unfolding sample_position place
  place_all p total_members [] known s = returns (known, s)
  place_all p total_members (name ∷ names) known s = do
    (sample, s') ← sample_position p.auth_policy p.max_active_committers total_members s
    known' ← place p known name sample
    place_all p total_members names known' s'

  -- The `while` loop that draws again as long as the winner is one of several new members. The
  -- test reads `known_members[who_acts]`, but only if there are several.
  unfoldable pub reroll : ℕ → ℕ → List String → List String → ℕ → State → Outcome ℕ
  reroll zero candidates new_members known who_acts s = spins
  reroll (suc fuel) candidates new_members known who_acts s =
      if ltb 1 (length new_members)
      then (do
        winner ← read_at known who_acts
        elim (contains new_members winner) [
          | false ↦ returns who_acts
          | true ↦ do
            (again, s') ← gen_range r s 0 candidates
            reroll fuel candidates new_members known again s'
        ])
      else returns who_acts

  -- `who_acts` after the first draw and the loop.
  unfoldable pub elect : ℕ → ℕ → List String → List String → State → Outcome ℕ
  unfolding reroll
  elect fuel candidates new_members known s = do
    (who_acts, s') ← gen_range r s 0 candidates
    reroll fuel candidates new_members known who_acts s'

  -- What follows the loop over `new_members`.
  unfoldable pub decide :
      ℕ → Orchestrator → ℕ → List String → State → Outcome (Orchestrator × NextAction)
  unfolding elect settle
  decide fuel o total_members new_members s = elim (active_position o) [
    | none ↦ returns (o, inactive)
    | some here ↦ do
      who_acts ←
          elect fuel (min o.max_active_committers total_members) new_members o.known_members s
      returns (settle o new_members here who_acts)
  ]

  unfoldable pub process_commit :
      ℕ → Orchestrator → Bytes → ℕ → List String → Outcome (Orchestrator × NextAction)
  unfolding place_all decide
  process_commit fuel o seed total_members new_members = do
    (known, s) ←
        place_all o.parameters total_members new_members o.known_members
          (from_seed (seed_array seed))
    decide fuel (record o { known_members = known }) total_members new_members s

-- The test behind the log "Inconsistent state": an empty slot before a member.
unfoldable pub has_gap : List String → Bool
has_gap [] = false
has_gap (x ∷ []) = false
has_gap (x ∷ y ∷ rest) =
    let later = has_gap (y ∷ rest) in if x == "" && not (y == "") then true else later

-- The last loop, over `0..known_members.len() - 1`, panics on an empty list.
unfoldable pub remove_members : Orchestrator → List String → Outcome Orchestrator
remove_members o members_to_remove = elim (active_position o) [
  | none ↦ returns o
  | some _ ↦
      let known =
        resize o.max_active_processers ""
          (retain (λ member. not (contains members_to_remove member)) o.known_members) in
      if length known == 0 then panics else returns (record o { known_members = known })
]

unfoldable pub process_ack : Orchestrator → Orchestrator × NextAction
process_ack o =
    if o.pending_acks == 0
    then (o, listen)
    else (let left = o.pending_acks - 1 in
        (record o { pending_acks = left }, if left == 0 then commit else listen))
