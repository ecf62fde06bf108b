-- ===== src/Agent/Orchestrated.antt =====
-- An orchestrated agent: client_agent/orchestrated.rs, its actions and its turn on a group that it
-- was told to commit in. The log lines and the sleeps are left out, and so is the start of `run`.
use mls_experimental_analysi.Base.{
  ℕ, zero, suc, String, append, ◌&&◌, not, ltb, leb, if◌then◌else◌, ◌==◌, nat_eq, length, Outcome,
  returns, spins, ◌>>=◌, ok, err,
}
use mls_experimental_analysi.Config.{F64, Paradigm, DsType, UserParameters}
use mls_experimental_analysi.Agent.{Timing, CgkaAction, User, ThreadRng}
use mls_experimental_analysi.Agent.Independent.{Step, attempt, pick, unwrap}
use mls_experimental_analysi.Agent.Turn.{Turn}

module _ {f : F64} {t : Timing} (r : ThreadRng f) (u : User t) (p : UserParameters f) where
  unfoldable pub invite_user : String → u.State → r.rng.State → Step r u p
  invite_user group_name s g = do
    (s', updated) ← u.update_clients s
    elim updated [
      | err e ↦ returns ((s', g), err (append "Error updating clients: " e))
      | ok _ ↦
          let candidates = u.not_members_of_group group_name s' in
          if length candidates == 0 then returns ((s', g), err "No candidates to invite") else (do
            (user_to_add, g') ← pick r u p candidates g
            elim p.paradigm [
              | Paradigm.commit ↦
                  attempt r u p "Error inviting user: " (u.invite user_to_add group_name s') g'
              | Paradigm.propose ↦
                  attempt r u p "Error proposing Invite: "
                    (u.propose (CgkaAction.invite user_to_add 0) group_name s') g'
            ])
    ]

  unfoldable pub remove_from_group : String → u.State → r.rng.State → Step r u p
  remove_from_group group_name s g = do
    members ← u.members_of_group group_name s
    if length members == 0 then returns ((s, g), err "No candidates to remove") else (do
      (user_to_remove, g') ← pick r u p members g
      elim p.paradigm [
        | Paradigm.commit ↦
            attempt r u p "Error removing user: " (u.remove user_to_remove group_name s) g'
        | Paradigm.propose ↦
            attempt r u p "Error proposing Remove: "
              (u.propose (CgkaAction.remove user_to_remove 0) group_name s) g'
      ])

  unfoldable pub update_group : String → u.State → r.rng.State → Step r u p
  update_group group_name s g = elim p.paradigm [
    | Paradigm.commit ↦ attempt r u p "Error updating user: " (u.update_state group_name s) g
    | Paradigm.propose ↦
        attempt r u p "Error proposing user: " (u.propose (CgkaAction.update 0) group_name s) g
  ]

  -- The action that the value drawn stands for.
  unfoldable pub act : f.Float → String → u.State → r.rng.State → Step r u p
  unfolding invite_user remove_from_group update_group
  act x group_name s g =
      if f.lt x p.invite_chance
      then invite_user group_name s g
      else if f.lt x (f.add p.invite_chance p.remove_chance)
      then remove_from_group group_name s g
      else update_group group_name s g

  -- The inner loop: until a commit was accepted, an action or a proposal after the other.
  unfoldable pub act_loop : ℕ → String → u.State → r.rng.State → Turn r u p
  unfolding act
  act_loop zero group_name s g = spins
  act_loop (suc fuel) group_name s g = do
    let (x, g') = r.unit g
    ((s', g''), result) ← act x group_name s g'
    elim p.paradigm [
      | Paradigm.commit ↦ elim result [
        | ok _ ↦ returns (s', g'')
        | err _ ↦ act_loop fuel group_name s' g''
      ]
      | Paradigm.propose ↦ do
        (s1, pending) ← unwrap (u.pending_proposals group_name s')
        (if ltb pending p.proposals_per_commit then act_loop fuel group_name s1 g'' else (do
          (s2, committed) ← u.commit_to_proposals group_name p.proposals_per_commit s1
          elim committed [ ok _ ↦ returns (s2, g'') | err _ ↦ act_loop fuel group_name s2 g'' ]))
    ]

  -- The user fetches its updates first where the delivery service is asked for them.
  unfoldable pub fetch : u.State → Outcome u.State
  fetch s = elim p.delivery_service [
    | DsType.request ↦ unwrap (u.fetch_updates s) >>= λ (s', _). returns s'
    | DsType.pub_sub_mqtt url ↦ returns s
    | DsType.gossip_sub config ↦ returns s
  ]

  unfoldable pub orchestrated_turn : ℕ → String → u.State → r.rng.State → Turn r u p
  unfolding fetch act_loop
  orchestrated_turn fuel group_name s g = do
    s' ← fetch s
    (if not (p.max_members == 0) && leb p.max_members (u.number_of_members group_name s')
        then (do (end, _) ← remove_from_group group_name s' g; returns end)
        else act_loop fuel group_name s' g)
