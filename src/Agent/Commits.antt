-- ===== src/Agent/Commits.antt =====
-- How many commits an orchestrated agent of client_agent/orchestrated.rs makes in a turn.
use mls_experimental_analysi.Base.{
  Post, bind_rule, any_rule, if_rule, ℕ, zero, suc, String, append, ◌≡◌, refl, subst, ap, ltb,
  length, ◌==◌, nat_eq, Outcome, Result, ok, err,
}
use mls_experimental_analysi.Config.{F64, Paradigm, UserParameters}
use mls_experimental_analysi.Agent.{Timing, User, ThreadRng, Call, CgkaAction}
use mls_experimental_analysi.Agent.Independent.{Step, pick, attempt}
use mls_experimental_analysi.Agent.Orchestrated.{
  invite_user, remove_from_group, update_group, act, act_loop,
}
use mls_experimental_analysi.Agent.Balance.{booked, booked_rule, unwrap_rule, counted}

paradigm_cases :
    {B : Type 0} (Q : B → Type 0) (q : Paradigm) (x y : Outcome B)
    → (q ≡ Paradigm.commit → Post Q x)
    → (q ≡ Paradigm.propose → Post Q y)
    → Post Q (elim q [ Paradigm.commit ↦ x | Paradigm.propose ↦ y ])
paradigm_cases Q Paradigm.commit x y hx hy = hx refl
paradigm_cases Q Paradigm.propose x y hx hy = hy refl

result_cases :
    {A B : Type 0} (Q : B → Type 0) (result : Result A) (x : A → Outcome B) (y : String → Outcome B)
    → ((a : A) → result ≡ ok a → Post Q (x a))
    → ((e : String) → result ≡ err e → Post Q (y e))
    → Post Q (elim result [ ok a ↦ x a | err e ↦ y e ])
result_cases Q (ok a) x y hx hy = hx a refl
result_cases Q (err e) x y hx hy = hy e refl

module _ {t : Timing} (u : User t) where
  -- The user with a count of the commits that it accepted.
  abbrev pub tallied : User t
  tallied = record (counted u) {
    get_group_info = λ name. booked (λ n. n) (u.get_group_info name);
    publish_group_info = λ name. booked (λ n. n) (u.publish_group_info name);
    external_join = λ name info. booked suc (u.external_join name info);
    invite = λ user name. booked suc (u.invite user name);
    remove = λ user name. booked suc (u.remove user name);
    update_state = λ name. booked suc (u.update_state name);
    commit_to_proposals = λ name amount. booked suc (u.commit_to_proposals name amount);
  }

module _ {f : F64} {t : Timing} (r : ThreadRng f) (u : User t) (p : UserParameters f) where
  -- The count after an action: one more if a commit succeeded, and as before otherwise.
  abbrev tally : Paradigm → Result (Unit {0}) → ℕ → ℕ
  tally Paradigm.commit (ok _) n = suc n
  tally Paradigm.commit (err _) n = n
  tally Paradigm.propose result n = n

  abbrev Tally : ℕ → Step r (tallied u) p → Type 0
  Tally n = Post (λ q. q.0.0.1 ≡ tally p.paradigm q.1 n)

  by_paradigm :
      (q : Paradigm) (n : ℕ) (x y : Step r (tallied u) p)
      → Post (λ z. z.0.0.1 ≡ tally Paradigm.commit z.1 n) x
      → Post (λ z. z.0.0.1 ≡ tally Paradigm.propose z.1 n) y
      → Post (λ z. z.0.0.1 ≡ tally q z.1 n) (elim q [ Paradigm.commit ↦ x | Paradigm.propose ↦ y ])
  by_paradigm Paradigm.commit n x y hx hy = hx
  by_paradigm Paradigm.propose n x y hx hy = hy

  tally_err : (q : Paradigm) (e : String) (n : ℕ) → n ≡ tally q (err e) n
  tally_err Paradigm.commit e n = refl
  tally_err Paradigm.propose e n = refl

  commit-Tally :
      (message : String) (call : Call u.State Unit) (s : u.State) (n : ℕ) (g : r.rng.State)
      → Post
          (λ z. z.0.0.1 ≡ tally Paradigm.commit z.1 n)
          (attempt r (tallied u) p message (booked suc call (s, n)) g)
  commit-Tally message call s n g = booked_rule _ suc call s n _ (λ _ _. refl) (λ _ _. refl)

  propose-Tally :
      (message : String) (call : Call u.State Unit) (s : u.State) (n : ℕ) (g : r.rng.State)
      → Post
          (λ z. z.0.0.1 ≡ tally Paradigm.propose z.1 n)
          (attempt r (tallied u) p message (booked (λ k. k) call (s, n)) g)
  propose-Tally message call s n g = booked_rule _ (λ k. k) call s n _ (λ _ _. refl) (λ _ _. refl)

  update_group-Tally :
      (group_name : String) (s : u.State) (n : ℕ) (g : r.rng.State)
      → Tally n (update_group r (tallied u) p group_name (s, n) g)
  unfolding update_group
  update_group-Tally group_name s n g =
      by_paradigm p.paradigm n _ _
        (commit-Tally "Error updating user: " (u.update_state group_name) s n g)
        (propose-Tally "Error proposing user: " (u.propose (CgkaAction.update 0) group_name) s n g)

  remove_from_group-Tally :
      (group_name : String) (s : u.State) (n : ℕ) (g : r.rng.State)
      → Tally n (remove_from_group r (tallied u) p group_name (s, n) g)
  unfolding remove_from_group
  remove_from_group-Tally group_name s n g =
      bind_rule _ _ (u.members_of_group group_name s) _ (any_rule _) (λ members _.
        if_rule _ (length members == 0) _ _ (tally_err p.paradigm "No candidates to remove" n) (
          bind_rule _ _ (pick r (tallied u) p members g) _ (any_rule _) (λ (user, g') _.
            by_paradigm p.paradigm n _ _
              (commit-Tally "Error removing user: " (u.remove user group_name) s n g')
              (propose-Tally "Error proposing Remove: "
                (u.propose (CgkaAction.remove user 0) group_name) s n g'))))

  invite_user-Tally :
      (group_name : String) (s : u.State) (n : ℕ) (g : r.rng.State)
      → Tally n (invite_user r (tallied u) p group_name (s, n) g)
  unfolding invite_user
  invite_user-Tally group_name s n g =
      booked_rule _ (λ k. k) u.update_clients s n _
        (λ s' _.
          let candidates = u.not_members_of_group group_name s' in
          if_rule _ (length candidates == 0) _ _ (tally_err p.paradigm "No candidates to invite" n)
            (bind_rule _ _ (pick r (tallied u) p candidates g) _ (any_rule _) (λ (user, g') _.
              by_paradigm p.paradigm n _ _
                (commit-Tally "Error inviting user: " (u.invite user group_name) s' n g')
                (propose-Tally "Error proposing Invite: "
                  (u.propose (CgkaAction.invite user 0) group_name) s' n g'))))
        (λ _ e. tally_err p.paradigm (append "Error updating clients: " e) n)

  act-Tally :
      (x : f.Float) (group_name : String) (s : u.State) (n : ℕ) (g : r.rng.State)
      → Tally n (act r (tallied u) p x group_name (s, n) g)
  unfolding act
  act-Tally x group_name s n g =
      let fine : ((u.State × ℕ) × r.rng.State) × Result (Unit {0}) → Type 0 =
        λ q. q.0.0.1 ≡ tally p.paradigm q.1 n in
      if_rule fine (f.lt x p.invite_chance) _ _ (invite_user-Tally group_name s n g) (
        if_rule fine (f.lt x (f.add p.invite_chance p.remove_chance)) _ _
          (remove_from_group-Tally group_name s n g) (update_group-Tally group_name s n g))

  -- Where the inner loop of an orchestrated agent ends within the fuel and without a panic, its
  -- user has accepted exactly one commit more than before, in both paradigms, however many actions
  -- failed on the way.
  pub act_loop-one_commit :
      (fuel : ℕ) (group_name : String) (s : u.State) (n : ℕ) (g : r.rng.State)
      → Post (λ q. q.0.1 ≡ suc n) (act_loop r (tallied u) p fuel group_name (s, n) g)
  unfolding act_loop
  act_loop-one_commit zero group_name s n g = tt
  act_loop-one_commit (suc fuel) group_name s n g =
      let g' = (r.unit g).1 in
      let once : (u.State × ℕ) × r.rng.State → Type 0 = λ q. q.0.1 ≡ suc n in
      let again = λ (k : ℕ) (s' : u.State) (g'' : r.rng.State) (same : k ≡ n).
        subst
          (λ i. Post (λ q. q.0.1 ≡ suc i) (act_loop r (tallied u) p fuel group_name (s', k) g''))
          same (act_loop-one_commit fuel group_name s' k g'') in
      bind_rule _ once (act r (tallied u) p (r.unit g).0 group_name (s, n) g') _
        (act-Tally (r.unit g).0 group_name s n g')
        (λ (((s', k), g''), result) h.
          paradigm_cases once p.paradigm _ _
            (λ e.
              result_cases once result _ _
                (λ a is.
                  subst (λ z. k ≡ tally Paradigm.commit z n) is
                    (subst (λ q. k ≡ tally q result n) e h))
                (λ er is. again k s' g'' (
                  subst (λ z. k ≡ tally Paradigm.commit z n) is
                    (subst (λ q. k ≡ tally q result n) e h))))
            (λ e.
              let same : k ≡ n = subst (λ q. k ≡ tally q result n) e h in
              unwrap_rule once (λ i. i) (u.pending_proposals group_name) s' k _
                (λ s1 pending.
                  if_rule once (ltb pending p.proposals_per_commit) _ _ (again k s1 g'' same) (
                    booked_rule once suc (u.commit_to_proposals group_name p.proposals_per_commit)
                      s1 k _ (λ _ _. ap suc same) (λ s2 _. again k s2 g'' same)))))
