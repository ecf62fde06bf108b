-- ===== src/User/Sent.antt =====
-- What `post_process_commit` of emulated_client/src/user.rs leaves behind.
use mls_experimental_analysi.Base.{
  ℕ, String, string_eq, Bool, true, false, if_then, ==_iff, Option, none, some, ◌≡◌, refl, sym, ap,
  subst, ◌∙◌, returns, Result, ok, err, Post, Post-map,
}
use mls_experimental_analysi.Base.Dict.{lookup, insert, lookup-insert_self}
use mls_experimental_analysi.Rng.{Rng}
use mls_experimental_analysi.DsLib.{Mls}
use mls_experimental_analysi.Agent.{Timing, CgkaAction}
use mls_experimental_analysi.User.{
  Library, User, AgentType, StoredWelcome, PendingCommit, EpochChange,
}
use mls_experimental_analysi.User.Monad.{Method, ◌>>=◌, pure, modify, by_agent_type}
use mls_experimental_analysi.User.Keeps.{
  Keeps, IsFrame, keeps_rules, Keeps-gets, Keeps-unwrap, Keeps-ask,
}
use mls_experimental_analysi.User.Blocks.{Post-then}
use mls_experimental_analysi.User.Frames.{Keeps-send_to_group}
use mls_experimental_analysi.User.Pending.{Confirmed, confirm_commit-Confirmed}
use mls_experimental_analysi.User.Commits.{
  confirm_commit, confirm_if_orchestrated, send_commit, post_process_commit,
}

abbrev is_orchestrated : AgentType → Bool
is_orchestrated AgentType.independent = false
is_orchestrated (AgentType.orchestrator params orchestrators) = true

module _ {m : Mls} {t : Timing} {l : Library m t} where
  -- The commit that waits, with the epoch in which it was sent.
  abbrev pub Waits :
      String → CgkaAction t → Option (StoredWelcome l) → User l → EpochChange → Type 0
  Waits group_name action welcome u change =
      (item : PendingCommit l) × (lookup group_name u.pending_commits ≡ some item)
      × (item.action_record.action ≡ action)
      × (item.action_record.epoch_change ≡ change)
      × (item.stored_welcome ≡ welcome)

  -- A commit that was sent waits with an independent user, and is settled with an orchestrated one.
  abbrev pub Settled :
      AgentType
      → String
      → CgkaAction t
      → Option (StoredWelcome l)
      → User l × Result EpochChange
      → Type 0
  Settled agent_type group_name action welcome (u, err e) = Unit
  Settled AgentType.independent group_name action welcome (u, ok change) =
      Waits group_name action welcome u change
  Settled (AgentType.orchestrator params orchestrators) group_name action welcome (u, ok change) =
      lookup group_name u.pending_commits ≡ none

  abbrev OfKind : Bool → User l → Type 0
  OfKind kind u = is_orchestrated u.agent_type ≡ kind

  OfKind-IsFrame : (kind : Bool) → IsFrame (OfKind kind)
  OfKind-IsFrame kind = record {
    of_env = λ u _ h. h;
    of_groups = λ u _ h. h;
    of_list = λ u _ h. h;
    of_buffer = λ u _ h. h;
    of_contacts = λ u _ h. h;
    of_identity = λ u _ h. h;
    of_orchestrators = λ u _ _ _ e h. sym (ap is_orchestrated e) ∙ h;
    of_behind = λ u _ _ h. h;
  }

  abbrev WasSent :
      Bool → String → CgkaAction t → Option (StoredWelcome l) → User l × Result EpochChange → Type 0
  WasSent kind group_name action welcome (u, err e) = Unit
  WasSent kind group_name action welcome (u, ok change) =
      OfKind kind u × Waits group_name action welcome u change

  module _ (kind : Bool) (group_name : String) (action : CgkaAction t)
      (welcome : Option (StoredWelcome l)) where
    -- A step before the commit is stored.
    before_sent :
        {A : Type 0} (x : Method l A) (k : A → Method l EpochChange) (u : User l)
        → OfKind kind u
        → Keeps (OfKind kind) x
        → ((u' : User l) (a : A)
            → OfKind kind u'
            → Post (WasSent kind group_name action welcome) (k a u'))
        → Post (WasSent kind group_name action welcome) ((x >>= k) u)
    before_sent x k u h kx go =
        Post-then (λ q. OfKind kind q.0) (WasSent kind group_name action welcome) x k u (kx.at u h)
          (λ _ _ _. tt) (λ u' a h'. go u' a h')

    stored-WasSent :
        (item : PendingCommit l) (u : User l)
        → OfKind kind u
        → item.action_record.action ≡ action
        → item.stored_welcome ≡ welcome
        → Post (WasSent kind group_name action welcome) (
            (modify {l = l}
                  (λ u. record u { pending_commits = insert group_name item u.pending_commits })
                >>= λ _. pure item.action_record.epoch_change)
              u)
    unfolding ◌>>=◌ modify pure
    stored-WasSent item u h acts welcomes =
        (h, (item, lookup-insert_self group_name item u.pending_commits, acts, refl, welcomes))

    send_commit-WasSent :
        (msg : m.Message) (info : Option m.GroupInfo) (elapsed : ℕ) (u : User l)
        → OfKind kind u
        → Post
            (WasSent kind group_name action welcome)
            (send_commit {l = l} group_name msg info welcome action elapsed u)
    unfolding send_commit
    send_commit-WasSent msg info elapsed u h =
        let frame = OfKind-IsFrame kind in
        before_sent _ _ u h (Keeps-gets _) (λ u1 groups h1.
          before_sent _ _ u1 h1 (Keeps-unwrap _) (λ u2 group h2.
            before_sent _ _ u2 h2 (Keeps-ask frame _) (λ u3 timestamp h3.
              before_sent _ _ u3 h3 (search keeps_rules) (λ u4 recipients h4.
                before_sent _ _ u4 h4 (Keeps-send_to_group frame group_name msg recipients)
                  (λ u5 _ h5. stored-WasSent _ u5 h5 refl refl)))))

  -- What the confirmation leaves: everything with an independent user, no pending commit with an
  -- orchestrated one.
  abbrev Left : AgentType → String → User l → User l → Type 0
  Left AgentType.independent group_name u u' = u' ≡ u
  Left (AgentType.orchestrator params orchestrators) group_name u u' =
      lookup group_name u'.pending_commits ≡ none

  module _ (r : Rng) (fuel : ℕ) where
    confirm_commit-none :
        (group_name : String) (u : User l)
        → Post
            (λ q. lookup group_name q.0.pending_commits ≡ none)
            (confirm_commit {l = l} r fuel group_name u)
    confirm_commit-none group_name u =
        Post-map {A = User l × Result (Unit {0})} {P = λ q. Confirmed group_name u q.0}
          (λ q h. h group_name ∙ if_then none _ ((==_iff group_name group_name).1 refl))
          (confirm_commit r fuel group_name u) (confirm_commit-Confirmed r fuel group_name u)

    confirm_if_orchestrated-Left :
        (agent_type : AgentType) (group_name : String) (u : User l)
        → is_orchestrated u.agent_type ≡ is_orchestrated agent_type
        → Post
            (λ q. Left agent_type group_name u q.0)
            (confirm_if_orchestrated {l = l} r fuel group_name u)
    unfolding by_agent_type pure
    confirm_if_orchestrated-Left agent_type group_name u same = by_case u.agent_type agent_type same
      where
        by_case :
            (own agent_type : AgentType)
            → is_orchestrated own ≡ is_orchestrated agent_type
            → Post {A = User l × Result (Unit {0})}
                (λ q. Left agent_type group_name u q.0)
                (elim own [
                  | AgentType.independent ↦ returns (u, ok tt)
                  | AgentType.orchestrator params orchestrators ↦
                      confirm_commit {l = l} r fuel group_name u
                ])
        by_case AgentType.independent AgentType.independent e = refl
        by_case AgentType.independent (AgentType.orchestrator _ _) e = cc
        by_case (AgentType.orchestrator _ _) AgentType.independent e = cc
        by_case (AgentType.orchestrator _ _) (AgentType.orchestrator _ _) e =
            confirm_commit-none group_name u

    settled :
        (agent_type : AgentType) (group_name : String) (action : CgkaAction t)
        (welcome : Option (StoredWelcome l)) (change : EpochChange) (u u' : User l)
        → Waits group_name action welcome u change
        → Left agent_type group_name u u'
        → Post (Settled agent_type group_name action welcome) (pure {l = l} change u')
    unfolding pure
    settled AgentType.independent group_name action welcome change u u' waits left =
        subst (λ v. Waits group_name action welcome v change) (sym left) waits
    settled (AgentType.orchestrator _ _) group_name action welcome change u u' waits left = left

    -- Where `post_process_commit` succeeds, an independent user keeps the commit pending under its
    -- group, with its action, its epoch and its welcome, and an orchestrated user has no pending
    -- commit in the group.
    pub post_process_commit-Settled :
        (u : User l) (group_name : String) (msg : m.Message) (info : Option m.GroupInfo)
        (welcome : Option (StoredWelcome l)) (action : CgkaAction t) (elapsed : ℕ)
        → Post
            (Settled u.agent_type group_name action welcome)
            (post_process_commit {l = l} r fuel group_name msg info welcome action elapsed u)
    unfolding post_process_commit
    post_process_commit-Settled u group_name msg info welcome action elapsed =
        let kind = is_orchestrated u.agent_type in
        Post-then (WasSent kind group_name action welcome) _ _ _ u
          (send_commit-WasSent kind group_name action welcome msg info elapsed u refl) (λ _ _ _. tt)
          (λ u' change (same, waits).
            Post-then (λ q. Left u.agent_type group_name u' q.0) _ _ _ u'
              (confirm_if_orchestrated-Left u.agent_type group_name u' same) (λ _ _ _. tt)
              (λ u'' _ left.
                settled u.agent_type group_name action welcome change u' u'' waits left))
