-- ===== src/Agent/Independent.antt =====
-- The actions of an independent agent: client_agent/independent.rs. The log lines are left out.
use mls_experimental_analysi.Base.{
  ℕ, suc, String, append, List, none, some, if◌then◌else◌, ◌==◌, nat_eq, length, get_elem?, Outcome,
  returns, panics, ◌>>=◌, Result, ok, err,
}
use mls_experimental_analysi.Config.{F64, Paradigm, Behaviour, UserParameters}
use mls_experimental_analysi.Rng.{gen_range}
use mls_experimental_analysi.Agent.{Timing, CgkaAction, User, ThreadRng, Call}

module _ {f : F64} where
  -- `scale`, which is unreachable for an orchestrated agent.
  unfoldable pub scale : UserParameters f → f.Float → ℕ → Outcome f.Float
  scale parameters value members = elim parameters.behaviour [
    | Behaviour.independent params ↦
        returns (if params.scale then f.div value (f.from_nat (suc members)) else value)
    | Behaviour.orchestrated params ↦ panics
  ]

-- `unwrap` of a result.
abbrev pub unwrap : {S A : Type 0} → Outcome (S × Result A) → Outcome (S × A)
unwrap call = call >>= λ (s, result). elim result [ ok a ↦ returns (s, a) | err e ↦ panics ]

module _ {f : F64} {t : Timing} (r : ThreadRng f) (u : User t) (p : UserParameters f) where
  -- A state of the user and of the generator.
  abbrev pub Draws : Type 0
  Draws = r.rng.State

  abbrev pub Step : Type 0
  Step = Outcome ((u.State × Draws) × Result (Unit {0}))

  -- `xs[rng.gen_range(0..xs.len())]`
  abbrev pub pick : List String → Draws → Outcome (String × Draws)
  pick xs g = do
    (i, g') ← gen_range r.rng g 0 (length xs)
    elim (get_elem? xs i) [ none ↦ panics | some x ↦ returns (x, g') ]

  -- A call whose error gets a prefix.
  abbrev pub attempt : String → Outcome (u.State × Result (Unit {0})) → Draws → Step
  attempt message call g = do
    (s, result) ← call
    elim result [
      | ok _ ↦ returns ((s, g), ok tt)
      | err e ↦ returns ((s, g), err (append message e))
    ]

  -- A commit with the group info as a mutex: without it nothing is done, and after a failed commit
  -- the group info is published again.
  abbrev pub guarded : String → String → Call u.State Unit → u.State → Draws → Step
  guarded message group_name call s g = do
    (s', info) ← u.get_group_info group_name s
    elim info [
      | err _ ↦ returns ((s', g), ok tt)
      | ok _ ↦ do
        (s'', result) ← call s'
        elim result [
          | ok _ ↦ returns ((s'', g), ok tt)
          | err e ↦ do
            (s''', _) ← unwrap (u.publish_group_info group_name s'')
            returns ((s''', g), err (append message e))
        ]
    ]

  unfoldable pub invite_user : String → u.State → Draws → Step
  invite_user group_name s g = do
    (s', updated) ← u.update_clients s
    elim updated [
      | err e ↦ returns ((s', g), err (append "Error updating clients: " e))
      | ok _ ↦
          let candidates = u.not_members_of_group group_name s' in
          if length candidates == 0 then returns ((s', g), err "No candidates to invite") else (do
            (user_to_add, g') ← pick candidates g
            elim p.paradigm [
              | Paradigm.commit ↦
                  guarded "Error inviting user: " group_name (u.invite user_to_add group_name) s' g'
              | Paradigm.propose ↦
                  attempt "Error proposing Invite: "
                    (u.propose (CgkaAction.invite user_to_add 0) group_name s') g'
            ])
    ]

  unfoldable pub remove_from_group : String → u.State → Draws → Step
  remove_from_group group_name s g = do
    members ← u.members_of_group group_name s
    if length members == 0 then returns ((s, g), err "No candidates to remove") else (do
      (user_to_remove, g') ← pick members g
      elim p.paradigm [
        | Paradigm.commit ↦
            guarded "Error removing user: " group_name (u.remove user_to_remove group_name) s g'
        | Paradigm.propose ↦
            attempt "Error proposing Remove: "
              (u.propose (CgkaAction.remove user_to_remove 0) group_name s) g'
      ])

  unfoldable pub update_group : String → u.State → Draws → Step
  update_group group_name s g = elim p.paradigm [
    | Paradigm.commit ↦ guarded "Error updating user: " group_name (u.update_state group_name) s g
    | Paradigm.propose ↦
        attempt "Error proposing user: " (u.propose (CgkaAction.update 0) group_name s) g
  ]
