-- ===== src/User/Commits.antt =====
-- Commits that a user of emulated_client/src/user.rs has sent: `post_process_commit` keeps one for
-- the group until `confirm_commit`. `fuel` is for the draw of the orchestrator.
use mls_experimental_analysi.Base.{
  ℕ, suc, ◌+◌, String, string_eq, append, Bytes, Bool, true, false, List, [], ◌∷◌, map, Option,
  none, some, length, if◌then◌else◌, returns, ok,
}
use mls_experimental_analysi.Base.Dict.{lookup, insert, erase}
use mls_experimental_analysi.Rng.{Rng}
use mls_experimental_analysi.Orchestrator.{Orchestrator, NextAction, process_commit, remove_members}
use mls_experimental_analysi.DsLib.{Mls, GroupMessage, new_group_message}
use mls_experimental_analysi.Agent.{Timing, CgkaAction}
use mls_experimental_analysi.User.{
  Library, AgentType, StoredWelcome, PendingCommit, ActionRecord, EpochChange,
}
use mls_experimental_analysi.User.Monad.{
  Method, ◌>>=◌, ◌>>◌, modify, gets, pure, ask, call, panic, lift, unwrap, unwrap_result, group_or,
  on_group, by_ds, by_agent_type, if_commit,
}
use mls_experimental_analysi.User.Logs.{write_timestamp}
use mls_experimental_analysi.User.Delivery.{
  publish_info, send_to_agent, send_to_group, recipients_of,
}

-- `No group with name {group_name} known.`
abbrev pub no_group : String → String
no_group group_name = append "No group with name " (append group_name " known.")

abbrev pub is_proposal : {t : Timing} → CgkaAction t → Bool
is_proposal (CgkaAction.propose action) = true
is_proposal _ = false

abbrev removed_by : {t : Timing} → CgkaAction t → List String
removed_by (CgkaAction.remove user size) = user ∷ []
removed_by _ = []

module _ {m : Mls} {t : Timing} {l : Library m t} where
  -- The orchestrator of a group, which panics for a group without one.
  unfoldable pub orchestrator_of : String → Method l Orchestrator
  orchestrator_of group_name =
      by_agent_type panic (λ params orchestrators. unwrap (lookup group_name orchestrators))

  unfoldable pub put_orchestrator : String → Orchestrator → Method l (Unit {0})
  put_orchestrator group_name o = by_agent_type panic (λ params orchestrators. modify (λ u.
      record u { agent_type = AgentType.orchestrator params (insert group_name o orchestrators) }))

  -- The known members that go into a welcome message.
  unfoldable pub active_members : String → Method l (Option (List Bytes))
  active_members group_name = by_agent_type (pure none) (λ params orchestrators. do
    o ← orchestrator_of group_name
    pure (some (map l.as_bytes o.known_members)))

  -- The welcome message, once for each recipient.
  unfoldable pub send_welcomes : GroupMessage m → List String → Method l (Unit {0})
  send_welcomes msg [] = pure tt
  send_welcomes msg (recipient ∷ recipients) = do
    by_ds (call (l.post_welcome msg)) (call (l.broker_send_welcome msg recipient))
    send_welcomes msg recipients

  -- The welcome messages of a confirmed commit, and the new members.
  unfoldable pub welcome_members :
      String → m.RatchetTree → Option (StoredWelcome l) → Method l (List String)
  unfolding send_welcomes
  welcome_members group_name tree none = pure []
  welcome_members group_name tree (some stored) = do
    active ← active_members group_name
    username ← gets (λ u. u.username)
    let msg =
        new_group_message m stored.welcome (l.as_bytes username) (some tree)
          (map l.as_bytes stored.recipients) active
    send_welcomes msg stored.recipients
    pure stored.recipients

  -- The commit goes to the group and waits to be confirmed.
  unfoldable pub send_commit :
      String
      → m.Message
      → Option m.GroupInfo
      → Option (StoredWelcome l)
      → CgkaAction t
      → ℕ
      → Method l EpochChange
  send_commit group_name msg_out group_info welcome action elapsed_time = do
    groups ← gets (λ u. u.groups)
    group ← unwrap (lookup group_name groups)
    timestamp ← ask l.timestamp
    let epoch_change : EpochChange = record {
      timestamp = timestamp;
      epoch = l.epoch group.mls_group;
    }
    let item : ActionRecord t = record {
      group_name = group_name;
      action = action;
      epoch_change = epoch_change;
      elapsed_time = elapsed_time;
      num_users = length (l.members group.mls_group);
    }
    recipients ← recipients_of {l = l} group.mls_group
    send_to_group group_name msg_out recipients
    let pending : PendingCommit l = record {
      group_info = group_info;
      stored_welcome = welcome;
      action_record = item;
    }
    modify (λ u. record u { pending_commits = insert group_name pending u.pending_commits })
    pure epoch_change

  module _ (r : Rng) (fuel : ℕ) where
    -- `remove_members` and `process_commit` of the group's orchestrator.
    unfoldable pub orchestrate :
        String → List String → Bytes → ℕ → List String → Method l NextAction
    orchestrate group_name removed hash total_members new_members = do
      o ← orchestrator_of group_name
      o' ← lift (remove_members o removed)
      (o'', next_action) ← lift (process_commit r fuel o' hash total_members new_members)
      put_orchestrator group_name o''
      pure next_action

    -- An orchestrated agent that is to commit next is told so.
    unfoldable pub elect_next :
        String → List String → l.MlsGroup → List String → Method l (Unit {0})
    unfolding orchestrate
    elect_next group_name removed group new_members =
        by_agent_type (pure tt) (λ params orchestrators. do
          next_action ←
              orchestrate group_name removed (l.transcript_hash group) (length (l.members group))
                new_members
          if_commit next_action (send_to_agent group_name))

    -- What follows a confirmed commit that is no proposal: the record with the epoch after it.
    unfoldable pub conclude :
        String
        → Option m.GroupInfo
        → m.RatchetTree
        → l.MlsGroup
        → List String
        → ActionRecord t
        → Method l (ActionRecord t)
    unfolding elect_next
    conclude group_name group_info tree group new_members item = do
      publish_info {l = l} group (elim group_info [
        | some gi ↦ some (record { group_info = gi; ratchet_tree = some tree })
        | none ↦ none
      ])
      elect_next group_name (removed_by item.action) group new_members
      additional ← ask l.merge_total
      pure (record item {
        epoch_change = record item.epoch_change { epoch = suc item.epoch_change.epoch };
        num_users = length (l.members group);
        elapsed_time = item.elapsed_time + additional;
      })

    -- What `confirm_commit` does with a pending commit, which it has taken off.
    unfoldable pub confirm_pending : String → PendingCommit l → Method l (Unit {0})
    unfolding welcome_members conclude
    confirm_pending group_name pending = do
      group ← group_or (no_group group_name) group_name
      unwrap_result (on_group group_name group l.merge_pending_commit)
      groups ← gets (λ u. u.groups)
      merged ← unwrap (lookup group_name groups)
      let tree = l.export_ratchet_tree merged.mls_group
      new_members ← welcome_members group_name tree pending.stored_welcome
      edited ←
          (if is_proposal pending.action_record.action
            then pure pending.action_record
            else conclude group_name pending.group_info tree merged.mls_group new_members
                pending.action_record)
      write_timestamp edited

    unfoldable pub confirm_commit : String → Method l (Unit {0})
    unfolding confirm_pending
    confirm_commit group_name u = elim (lookup group_name u.pending_commits) [
      | none ↦ returns (u, ok tt)
      | some pending ↦
          confirm_pending group_name pending
            (record u { pending_commits = erase group_name u.pending_commits })
    ]

    -- An orchestrated agent's commit is confirmed at once.
    abbrev pub confirm_if_orchestrated : String → Method l (Unit {0})
    confirm_if_orchestrated group_name =
        by_agent_type (pure tt) (λ params orchestrators. confirm_commit group_name)

    unfoldable pub post_process_commit :
        String
        → m.Message
        → Option m.GroupInfo
        → Option (StoredWelcome l)
        → CgkaAction t
        → ℕ
        → Method l EpochChange
    unfolding confirm_commit send_commit
    post_process_commit group_name msg_out group_info welcome action elapsed_time = do
      epoch_change ← send_commit group_name msg_out group_info welcome action elapsed_time
      confirm_if_orchestrated group_name
      pure epoch_change
