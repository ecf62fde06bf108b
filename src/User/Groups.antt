-- ===== src/User/Groups.antt =====
-- The commits of a user of emulated_client/src/user.rs: its groups, their members, and what it says
-- in them.
use mls_experimental_analysi.Base.{
  ℕ, ◌+◌, String, string_eq, append, Bytes, true, List, [], ◌∷◌, Option, none, some, if◌then◌else◌,
  ◌==◌,
}
use mls_experimental_analysi.Base.Dict.{insert, values, contains_key}
use mls_experimental_analysi.Rng.{Rng}
use mls_experimental_analysi.Orchestrator
use mls_experimental_analysi.Orchestrator.{Orchestrator, NextAction, process_commit}
use mls_experimental_analysi.Conversation
use mls_experimental_analysi.Conversation.{ConversationMessage}
use mls_experimental_analysi.DsLib.{Mls, GroupInfoAndTree}
use mls_experimental_analysi.Agent.{Timing, CgkaAction}
use mls_experimental_analysi.User.{Library, Contact, Group, EpochChange}
use mls_experimental_analysi.User.Monad.{
  Method, ◌>>=◌, ◌>>◌, modify, gets, pure, fail, ask, panic, lift, unwrap, unwrap_result, map_err,
  group_or, put_group, on_group, ok_or, from_result, by_agent_type,
}
use mls_experimental_analysi.User.Members.{find_member_index}
use mls_experimental_analysi.User.Logs.{write_timestamp}
use mls_experimental_analysi.User.Delivery.{
  subscribe, publish_info, send_to_agent, send_to_group, consume_key_package, recipients_of,
}
use mls_experimental_analysi.User.Commits.{no_group, post_process_commit, put_orchestrator}
use mls_experimental_analysi.User.Messages.{record_of}

-- The first of the contacts with the name.
abbrev pub find_contact : String → List Contact → Option Contact
find_contact name [] = none
find_contact name (contact ∷ contacts) =
    let rest = find_contact name contacts in if contact.username == name then some contact else rest

module _ {m : Mls} {t : Timing} {l : Library m t} where
  abbrev fresh_group : String → l.MlsGroup → Group l
  fresh_group group_name mls_group = record {
    group_name = group_name;
    conversation = record { messages = [] };
    mls_group = mls_group;
  }

  abbrev pub contact_or_error : String → Method l Contact
  contact_or_error name u =
      ok_or (append "No contact with name " (append name " known."))
        (find_contact name (values u.contacts)) u

  -- `read_msgs`
  unfoldable pub read_msgs : String → Method l (List ConversationMessage)
  read_msgs group_name = do
    group ← group_or "Unknown group" group_name
    pure (Conversation.get group.conversation 100)

  -- A user with a pending commit says nothing.
  unfoldable pub send_application_msg : String → String → Method l (Unit {0})
  send_application_msg msg group_name = do
    waits ← gets (λ u. contains_key group_name u.pending_commits)
    if waits then fail "There is a pending commit" else (do
      group ← group_or "Unknown group" group_name
      message_out ← on_group group_name group (l.create_message msg)
      recipients ← recipients_of group.mls_group
      send_to_group group_name message_out recipients)

  -- The creator of a group, where its orchestrator says anything but commit, is `unreachable!()`.
  abbrev start : String → NextAction → Method l (Unit {0})
  start group_name NextAction.commit = send_to_agent group_name
  start group_name NextAction.listen = panic
  start group_name NextAction.inactive = panic

  module _ (r : Rng) (fuel : ℕ) where
    abbrev start_orchestrator : String → Bytes → Method l (Unit {0})
    start_orchestrator group_name hash = by_agent_type (pure tt) (λ params orchestrators. do
      username ← gets (λ u. u.username)
      (orchestrator, next_action) ←
          lift (process_commit r fuel (Orchestrator.new username params []) hash 1 (username ∷ []))
      put_orchestrator group_name orchestrator
      start group_name next_action)

    unfoldable pub create_group : String → Method l (Unit {0})
    create_group group_name = do
      subscribe group_name
      identity ← gets (λ u. u.identity)
      created ← ask (l.create group_name identity)
      fresh ← unwrap created
      elapsed ← ask l.elapsed
      let mls_group = l.set_aad (l.as_bytes (append group_name " AAD")) fresh
      timestamp ← ask l.timestamp
      groups ← gets (λ u. u.groups)
      (if contains_key group_name groups then panic else pure tt)
      modify (λ u. record u { active = insert group_name (true, 0) u.active })
      publish_info mls_group none
      put_group group_name (fresh_group group_name mls_group)
      start_orchestrator group_name (l.transcript_hash mls_group)
      write_timestamp (
          record_of group_name CgkaAction.create
            (record { timestamp = timestamp; epoch = l.epoch mls_group }) elapsed 1)

    -- The commit is merged before it is sent.
    unfoldable pub invite : String → String → Method l EpochChange
    invite name group_name = do
      contact ← contact_or_error name
      joiner_key_package ← consume_key_package contact
      group ← group_or (no_group group_name) group_name
      (message, welcome, group_info) ← map_err "Failed to add member to group - " (
          on_group {A = m.Message × m.Message × Option m.GroupInfo} group_name group
            (l.add_members joiner_key_package))
      elapsed ← ask l.elapsed
      added ← group_or (no_group group_name) group_name
      map_err "Error merging commit; " (on_group group_name added l.merge_pending_commit)
      (crypto_time, merge_time) ← ask {A = t.CryptoTime × t.MergeTime} l.commit_times
      merge_total ← ask l.merge_total
      post_process_commit r fuel group_name message group_info
          (some (record { welcome = welcome; recipients = name ∷ [] }))
          (CgkaAction.deep_commit (l.serialized_len message) crypto_time merge_time)
          (elapsed + merge_total)

    unfoldable pub update_state : String → Method l EpochChange
    update_state group_name = do
      group ← group_or (no_group group_name) group_name
      (message, _, group_info) ← map_err "Failed to self update - " (
          on_group {A = m.Message × Option m.Message × Option m.GroupInfo} group_name group
            l.self_update)
      elapsed ← ask l.elapsed
      post_process_commit r fuel group_name message group_info none
          (CgkaAction.update (l.serialized_len message)) elapsed

    unfoldable pub remove : String → String → Method l EpochChange
    remove name group_name = do
      group ← group_or (no_group group_name) group_name
      leaf_index ← from_result (find_member_index (l.as_bytes name) (l.members group.mls_group))
      (message, _, group_info) ← map_err "Failed to remove member from group - " (
          on_group {A = m.Message × Option m.Message × Option m.GroupInfo} group_name group
            (l.remove_members leaf_index))
      elapsed ← ask l.elapsed
      post_process_commit r fuel group_name message group_info none
          (CgkaAction.remove name (l.serialized_len message)) elapsed

    unfoldable pub external_join : String → GroupInfoAndTree m → Method l EpochChange
    external_join group_name info = do
      unwrap_result (subscribe group_name)
      identity ← gets (λ u. u.identity)
      joined ← ask (l.join_by_external_commit group_name identity info)
      (mls_group, message, group_info) ←
          unwrap {A = l.MlsGroup × m.Message × Option m.GroupInfo} joined
      elapsed ← ask l.elapsed
      modify (λ u. record u { active = insert group_name (true, 0) u.active })
      put_group group_name (fresh_group group_name mls_group)
      post_process_commit r fuel group_name message group_info none
          (CgkaAction.join (l.serialized_len message) (l.info_len info.group_info)) elapsed
