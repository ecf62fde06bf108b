-- ===== src/Agent/Balance.antt =====
-- What an independent agent of client_agent/independent.rs does with the group infos it takes: an
-- account beside the user's state.
use mls_experimental_analysi.Base.{
  ℕ, suc, ◌-◌, String, ◌≡◌, refl, subst, Bool, arith, if◌then◌else◌, not, ◌&&◌, leb, length, ◌==◌,
  nat_eq, Outcome, returns, panics, spins, ◌>>=◌, Result, ok, err, Post, bind_rule, any_rule,
  if_rule,
}
use mls_experimental_analysi.Config.{F64, Paradigm, UserParameters, IndependentParameters}
use mls_experimental_analysi.Rng.{gen_range}
use mls_experimental_analysi.Agent.{Timing, User, ThreadRng, Call, CgkaAction}
use mls_experimental_analysi.Agent.Independent.{
  Step, pick, attempt, guarded, unwrap, invite_user, remove_from_group, update_group, scale,
}
use mls_experimental_analysi.Agent.Turn.{
  Turn, authorised_turn, independent_parameters, commit_turn, group_turn, issue_update,
  after_update, message_turn,
}

pub paradigm_rule :
    {B : Type 0} (Q : B → Type 0) (q : Paradigm) (x y : Outcome B)
    → Post Q x
    → Post Q y
    → Post Q (elim q [ Paradigm.commit ↦ x | Paradigm.propose ↦ y ])
paradigm_rule Q Paradigm.commit x y hx hy = hx
paradigm_rule Q Paradigm.propose x y hx hy = hy

module _ {S A : Type 0} where
  abbrev book : (ℕ → ℕ) → ℕ → S × Result A → (S × ℕ) × Result A
  book change n (s, ok a) = ((s, change n), ok a)
  book change n (s, err e) = ((s, n), err e)

  -- The call, and a change of the account if it succeeds.
  abbrev pub booked : (ℕ → ℕ) → Call S A → Call (S × ℕ) A
  booked change call (s, n) = call s >>= λ q. returns (book change n q)

  -- How to show what holds after a booked call: once for each result.
  pub booked_rule :
      {B : Type 0} (Q : B → Type 0) (change : ℕ → ℕ) (call : Call S A) (s : S) (n : ℕ)
      (k : (S × ℕ) × Result A → Outcome B)
      → ((s' : S) (a : A) → Post Q (k ((s', change n), ok a)))
      → ((s' : S) (e : String) → Post Q (k ((s', n), err e)))
      → Post Q (booked change call (s, n) >>= k)
  booked_rule Q change call s n k good bad = by_outcome (call s)
    where
      by_outcome :
          (x : Outcome (S × Result A)) → Post Q ((x >>= λ q. returns (book change n q)) >>= k)
      by_outcome (returns (s', ok a)) = good s' a
      by_outcome (returns (s', err e)) = bad s' e
      by_outcome panics = tt
      by_outcome spins = tt

  pub unwrap_rule :
      {B : Type 0} (Q : B → Type 0) (change : ℕ → ℕ) (call : Call S A) (s : S) (n : ℕ)
      (k : (S × ℕ) × A → Outcome B)
      → ((s' : S) (a : A) → Post Q (k ((s', change n), a)))
      → Post Q (unwrap (booked change call (s, n)) >>= k)
  unwrap_rule Q change call s n k good = by_outcome (call s)
    where
      by_outcome :
          (x : Outcome (S × Result A))
          → Post Q (unwrap (x >>= λ q. returns (book change n q)) >>= k)
      by_outcome (returns (s', ok a)) = good s' a
      by_outcome (returns (s', err e)) = tt
      by_outcome panics = tt
      by_outcome spins = tt

module _ {t : Timing} (u : User t) where
  -- The user with an account of the group infos that were taken and are still owed: each one that
  -- is handed out counts one up, each accepted commit and each publication one down.
  abbrev pub counted : User t
  counted = record {
    State = u.State × ℕ;
    Info = u.Info;
    list_of_groups = λ s. u.list_of_groups s.0;
    group_list = λ s. u.group_list s.0;
    members_of_group = λ name s. u.members_of_group name s.0;
    not_members_of_group = λ name s. u.not_members_of_group name s.0;
    number_of_members = λ name s. u.number_of_members name s.0;
    update_clients = booked (λ n. n) u.update_clients;
    fetch_updates = booked (λ n. n) u.fetch_updates;
    is_authorised = λ name policy. booked (λ n. n) (u.is_authorised name policy);
    group_exists = λ name. booked (λ n. n) (u.group_exists name);
    get_group_info = λ name. booked suc (u.get_group_info name);
    publish_group_info = λ name. booked (λ n. n - 1) (u.publish_group_info name);
    create_group = λ name. booked (λ n. n) (u.create_group name);
    external_join = λ name info. booked (λ n. n - 1) (u.external_join name info);
    invite = λ user name. booked (λ n. n - 1) (u.invite user name);
    remove = λ user name. booked (λ n. n - 1) (u.remove user name);
    update_state = λ name. booked (λ n. n - 1) (u.update_state name);
    propose = λ action name. booked (λ n. n) (u.propose action name);
    pending_proposals = λ name. booked (λ n. n) (u.pending_proposals name);
    commit_to_proposals = λ name amount. booked (λ n. n - 1) (u.commit_to_proposals name amount);
    send_application_msg = λ msg name. booked (λ n. n) (u.send_application_msg msg name);
  }

module _ {f : F64} {t : Timing} (r : ThreadRng f) (u : User t) (p : UserParameters f) where
  -- The account at the end of an action.
  abbrev pub Steady : ℕ → Step r (counted u) p → Type 0
  Steady n = Post (λ q. q.0.0.1 ≡ n)

  guarded-Steady :
      (message group_name : String) (call : Call u.State Unit) (s : u.State) (n : ℕ)
      (g : r.rng.State)
      → Steady n (guarded r (counted u) p message group_name (booked (λ k. k - 1) call) (s, n) g)
  guarded-Steady message group_name call s n g =
      booked_rule _ suc (u.get_group_info group_name) s n _
        (λ s' _.
          booked_rule _ (λ k. k - 1) call s' (suc n) _ (λ _ _. omega arith)
            (λ s'' _.
              unwrap_rule _ (λ k. k - 1) (u.publish_group_info group_name) s'' (suc n) _
                (λ _ _. omega arith)))
        (λ _ _. refl)

  attempt-Steady :
      (message : String) (call : Call u.State Unit) (s : u.State) (n : ℕ) (g : r.rng.State)
      → Steady n (attempt r (counted u) p message (booked (λ k. k) call (s, n)) g)
  attempt-Steady message call s n g = booked_rule _ (λ k. k) call s n _ (λ _ _. refl) (λ _ _. refl)

  update_group-Steady :
      (group_name : String) (s : u.State) (n : ℕ) (g : r.rng.State)
      → Steady n (update_group r (counted u) p group_name (s, n) g)
  unfolding update_group
  update_group-Steady group_name s n g =
      paradigm_rule _ p.paradigm _ _
        (guarded-Steady "Error updating user: " group_name (u.update_state group_name) s n g)
        (attempt-Steady "Error proposing user: " (u.propose (CgkaAction.update 0) group_name) s n g)

  remove_from_group-Steady :
      (group_name : String) (s : u.State) (n : ℕ) (g : r.rng.State)
      → Steady n (remove_from_group r (counted u) p group_name (s, n) g)
  unfolding remove_from_group
  remove_from_group-Steady group_name s n g =
      bind_rule _ _ (u.members_of_group group_name s) _ (any_rule _) (λ members _.
        if_rule _ (length members == 0) _ _ refl (
          bind_rule _ _ (pick r (counted u) p members g) _ (any_rule _) (λ (user, g') _.
            paradigm_rule _ p.paradigm _ _
              (guarded-Steady "Error removing user: " group_name (u.remove user group_name) s n g')
              (attempt-Steady "Error proposing Remove: "
                (u.propose (CgkaAction.remove user 0) group_name) s n g'))))

  invite_user-Steady :
      (group_name : String) (s : u.State) (n : ℕ) (g : r.rng.State)
      → Steady n (invite_user r (counted u) p group_name (s, n) g)
  unfolding invite_user
  invite_user-Steady group_name s n g =
      booked_rule _ (λ k. k) u.update_clients s n _
        (λ s' _.
          let candidates = u.not_members_of_group group_name s' in
          if_rule _ (length candidates == 0) _ _ refl (
            bind_rule _ _ (pick r (counted u) p candidates g) _ (any_rule _) (λ (user, g') _.
              paradigm_rule _ p.paradigm _ _
                (guarded-Steady "Error inviting user: " group_name (u.invite user group_name) s' n
                  g')
                (attempt-Steady "Error proposing Invite: "
                  (u.propose (CgkaAction.invite user 0) group_name) s' n g'))))
        (λ _ _. refl)

  -- The account at the end of a turn.
  abbrev pub Level : ℕ → Turn r (counted u) p → Type 0
  Level n = Post (λ q. q.0.1 ≡ n)

  commit_turn-Level :
      (group_name : String) (s : u.State) (n : ℕ) (g : r.rng.State)
      → Level n (commit_turn r (counted u) p group_name (s, n) g)
  unfolding commit_turn
  commit_turn-Level group_name s n g =
      unwrap_rule _ (λ k. k) (u.pending_proposals group_name) s n _
        (λ s' pending. if_rule _ (leb pending p.proposals_per_commit) _ _ refl (
          booked_rule _ suc (u.get_group_info group_name) s' n _
            (λ s'' _.
              booked_rule _ (λ k. k - 1) (u.commit_to_proposals group_name p.proposals_per_commit)
                s'' (suc n) _ (λ _ _. omega arith)
                (λ s1 _.
                  unwrap_rule _ (λ k. k - 1) (u.publish_group_info group_name) s1 (suc n) _
                    (λ _ _. omega arith)))
            (λ _ _. refl)))

  message_turn-Level :
      (group_name : String) (members : ℕ) (s : u.State) (n : ℕ) (g : r.rng.State)
      → Level n (message_turn r (counted u) p group_name members (s, n) g)
  unfolding message_turn
  message_turn-Level group_name members s n g =
      let g' = (r.unit g).1 in
      bind_rule _ _ (scale p p.message_chance members) _ (any_rule _) (λ chance _.
        if_rule _ (f.lt (r.unit g).0 chance) _ _
          (bind_rule _ _ (gen_range r.rng g' p.message_length_min p.message_length_max) _
            (any_rule _)
            (λ (length, g'') _.
              booked_rule _ (λ k. k)
                (u.send_application_msg (r.alphanumeric length g'').0 group_name) s n _
                (λ _ _. refl) (λ _ _. refl)))
          refl)

  after_update-Level :
      (chance : f.Float) (group_name : String) (members : ℕ) (s : u.State) (n : ℕ) (g : r.rng.State)
      → Level n (after_update r (counted u) p chance group_name members (s, n) g)
  unfolding after_update
  after_update-Level chance group_name members s n g =
      let g' = (r.unit g).1 in
      let message = message_turn-Level group_name members s n g' in
      bind_rule _ _ (scale p chance members) _ (any_rule _) (λ limit _.
        paradigm_rule _ p.paradigm _ _ message
          (if_rule _ (f.lt (r.unit g).0 limit) _ _ (commit_turn-Level group_name s n g') message))

  issue_update-Level :
      (group_name : String) (s : u.State) (n : ℕ) (g : r.rng.State)
      → Post (λ q. q.0.0.1 ≡ n) (issue_update r (counted u) p group_name (s, n) g)
  unfolding issue_update
  issue_update-Level group_name s n g =
      let x = (r.unit g).0 in
      let g' = (r.unit g).1 in
      let full = not (p.max_members == 0) && leb p.max_members (u.number_of_members group_name s) in
      let fine : ((u.State × ℕ) × r.rng.State) × Bool → Type 0 = λ q. q.0.0.1 ≡ n in
      let even : ((u.State × ℕ) × r.rng.State) × Result (Unit {0}) → Type 0 = λ q. q.0.0.1 ≡ n in
      if_rule fine full _ _
        (bind_rule even fine (remove_from_group r (counted u) p group_name (s, n) g) _
          (remove_from_group-Steady group_name s n g) (λ _ h. h))
        (bind_rule even fine
          (if f.lt x p.invite_chance
            then invite_user r (counted u) p group_name (s, n) g'
            else if f.lt x (f.add p.invite_chance p.remove_chance)
            then remove_from_group r (counted u) p group_name (s, n) g'
            else update_group r (counted u) p group_name (s, n) g')
          _
          (if_rule even (f.lt x p.invite_chance) _ _ (invite_user-Steady group_name s n g') (
            if_rule even (f.lt x (f.add p.invite_chance p.remove_chance)) _ _
              (remove_from_group-Steady group_name s n g') (update_group-Steady group_name s n g')))
          (λ _ h. h))

  authorised_turn-Level :
      (params : IndependentParameters f) (group_name : String) (s : u.State) (n : ℕ)
      (g : r.rng.State)
      → Level n (authorised_turn r (counted u) p params group_name (s, n) g)
  unfolding authorised_turn
  authorised_turn-Level params group_name s n g =
      let members = u.number_of_members group_name s in
      let x = (r.unit g).0 in
      let g' = (r.unit g).1 in
      let chance = params.issue_update_chance in
      let fine : ((u.State × ℕ) × r.rng.State) × Bool → Type 0 = λ q. q.0.0.1 ≡ n in
      let even : (u.State × ℕ) × r.rng.State → Type 0 = λ q. q.0.1 ≡ n in
      bind_rule _ even (scale p chance members) _ (any_rule _) (λ limit _.
        if_rule even (f.lt x limit) _ _
          (bind_rule fine even (issue_update r (counted u) p group_name (s, n) g') _
            (issue_update-Level group_name s n g')
            (λ (((s', k), g''), goes_on) h.
              if_rule even goes_on _ _
                (subst
                  (λ i.
                    Level i (after_update r (counted u) p chance group_name members (s', k) g''))
                  h (after_update-Level chance group_name members s' k g''))
                h))
          (after_update-Level chance group_name members s n g'))

  -- In a turn on a group, an independent agent that takes a group info either has a commit accepted
  -- by its user or publishes the group info again: where the turn returns, the agent owes as many
  -- group infos as before.
  pub group_turn-Level :
      (group_name : String) (s : u.State) (n : ℕ) (g : r.rng.State)
      → Level n (group_turn r (counted u) p group_name (s, n) g)
  unfolding group_turn
  group_turn-Level group_name s n g =
      bind_rule _ _ (independent_parameters r (counted u) p) _ (any_rule _) (λ params _.
        booked_rule _ (λ k. k) (u.is_authorised group_name params.auth_policy) s n _
          (λ s' authorised.
            if_rule _ authorised _ _ (authorised_turn-Level params group_name s' n g) refl)
          (λ _ _. refl))
