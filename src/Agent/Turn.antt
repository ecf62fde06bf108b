-- ===== src/Agent/Turn.antt =====
-- The turns of an independent agent in the loop of `run`: client_agent/independent.rs. A `continue`
-- of the source ends the turn of its group. The log lines are left out.
use mls_experimental_analysi.Base.{
  ℕ, String, Bool, true, false, ◌&&◌, not, List, [], ◌∷◌, ◌++◌, leb, if◌then◌else◌, ◌==◌, nat_eq,
  string_eq, contains, Outcome, returns, panics, ◌>>=◌, ok, err,
}
use mls_experimental_analysi.Config.{
  F64, Paradigm, Behaviour, UserParameters, IndependentParameters,
}
use mls_experimental_analysi.Rng.{gen_range}
use mls_experimental_analysi.Agent.{Timing, User, ThreadRng}
use mls_experimental_analysi.Agent.Independent.{
  scale, unwrap, invite_user, remove_from_group, update_group,
}

module _ {f : F64} {t : Timing} (r : ThreadRng f) (u : User t) (p : UserParameters f) where
  abbrev pub Turn : Type 0
  Turn = Outcome (u.State × r.rng.State)

  -- The parameters of an independent agent, unreachable for an orchestrated one.
  abbrev pub independent_parameters : Outcome (IndependentParameters f)
  independent_parameters = elim p.behaviour [
    | Behaviour.independent params ↦ returns params
    | Behaviour.orchestrated params ↦ panics
  ]

  -- The commit to pending proposals, with the group info as a mutex.
  unfoldable pub commit_turn : String → u.State → r.rng.State → Turn
  commit_turn group_name s g = do
    (s', pending) ← unwrap (u.pending_proposals group_name s)
    (if leb pending p.proposals_per_commit then returns (s', g) else (do
      (s'', info) ← u.get_group_info group_name s'
      elim info [
        | err _ ↦ returns (s'', g)
        | ok _ ↦ do
          (s1, result) ← u.commit_to_proposals group_name p.proposals_per_commit s''
          elim result [
            | ok _ ↦ returns (s1, g)
            | err _ ↦ do (s2, _) ← unwrap (u.publish_group_info group_name s1); returns (s2, g)
          ]
      ]))

  unfoldable pub message_turn : String → ℕ → u.State → r.rng.State → Turn
  message_turn group_name members s g = do
    let (x, g') = r.unit g
    chance ← scale p p.message_chance members
    (if f.lt x chance
        then (do
          (length, g'') ← gen_range r.rng g' p.message_length_min p.message_length_max
          let (message, g1) = r.alphanumeric length g''
          (s', _) ← u.send_application_msg message group_name s
          returns (s', g1))
        else returns (s, g'))

  -- What follows the update in a turn.
  unfoldable pub after_update : f.Float → String → ℕ → u.State → r.rng.State → Turn
  unfolding commit_turn message_turn
  after_update issue_update_chance group_name members s g = do
    let (x, g') = r.unit g
    chance ← scale p issue_update_chance members
    elim p.paradigm [
      | Paradigm.commit ↦ message_turn group_name members s g'
      | Paradigm.propose ↦
          if f.lt x chance
          then commit_turn group_name s g'
          else message_turn group_name members s g'
    ]

  -- The update itself: the action is drawn, but a full group only loses members. The flag says
  -- whether the turn goes on.
  unfoldable pub issue_update :
      String → u.State → r.rng.State → Outcome ((u.State × r.rng.State) × Bool)
  issue_update group_name s g =
      if not (p.max_members == 0) && leb p.max_members (u.number_of_members group_name s)
      then (do (end, _) ← remove_from_group r u p group_name s g; returns (end, false))
      else (do
        let (x, g') = r.unit g
        (end, _) ←
            if f.lt x p.invite_chance
            then invite_user r u p group_name s g'
            else if f.lt x (f.add p.invite_chance p.remove_chance)
            then remove_from_group r u p group_name s g'
            else update_group r u p group_name s g'
        returns (end, elim p.paradigm [ Paradigm.propose ↦ true | Paradigm.commit ↦ false ]))

  -- The turn of an authorised agent.
  unfoldable pub authorised_turn : IndependentParameters f → String → u.State → r.rng.State → Turn
  unfolding after_update issue_update
  authorised_turn params group_name s g = do
    let members = u.number_of_members group_name s
    let (x, g') = r.unit g
    chance ← scale p params.issue_update_chance members
    (if f.lt x chance
        then (do
          ((s', g''), goes_on) ← issue_update group_name s g'
          (if goes_on
              then after_update params.issue_update_chance group_name members s' g''
              else returns (s', g'')))
        else after_update params.issue_update_chance group_name members s g')

  -- The body of the loop over the groups that the user is in.
  unfoldable pub group_turn : String → u.State → r.rng.State → Turn
  unfolding authorised_turn
  group_turn group_name s g = do
    params ← independent_parameters
    (s', is_auth) ← u.is_authorised group_name params.auth_policy s
    elim is_auth [
      | err _ ↦ returns (s', g)
      | ok authorised ↦
          if authorised then authorised_turn params group_name s' g else returns (s', g)
    ]

  -- The body of the loop over the groups to join; `existing` is `existing_groups`.
  unfoldable pub join_turn :
      List String
      → String
      → List String
      → u.State
      → r.rng.State
      → Outcome (List String × u.State × r.rng.State)
  join_turn groups_of_user group_name existing s g =
      let (x, g') = r.unit g in
      if contains groups_of_user group_name
      then returns (existing, s, g)
      else if f.lt x p.join_chance
      then (do
        (s', group_exists) ←
            if contains existing group_name
            then returns (s, ok true)
            else u.group_exists group_name s
        elim group_exists [
          | err _ ↦ returns (existing, s', g')
          | ok false ↦ do (s'', _) ← u.create_group group_name s'; returns (existing, s'', g')
          | ok true ↦
              if p.external_join
              then (do
                (s'', info) ← u.get_group_info group_name s'
                elim info [
                  | err _ ↦ returns (existing ++ group_name ∷ [], s'', g')
                  | ok group_info ↦ do
                    (s1, _) ← u.external_join group_name group_info s''
                    returns (existing ++ group_name ∷ [], s1, g')
                ])
              else returns (existing ++ group_name ∷ [], s', g')
        ])
      else returns (existing, s, g')
