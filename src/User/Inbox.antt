-- ===== src/User/Inbox.antt =====
-- The messages that reach a user of emulated_client/src/user.rs from the delivery service or the
-- broker: welcomes, messages of a group, the user's own messages and acknowledgements.
use mls_experimental_analysi.Base.{
  ℕ, ◌+◌, ◌%◌, ◌^◌, String, string_eq, append, Bytes, bytes_eq, Bool, true, false, List, [], ◌∷◌,
  retain, not, Option, none, some, if◌then◌else◌, ◌==◌, nat_eq,
}
use mls_experimental_analysi.Base.Dict.{Dict, lookup, insert, erase}
use mls_experimental_analysi.Rng.{Rng}
use mls_experimental_analysi.Config.{AuthorizationPolicy, OrchestratedParameters}
use mls_experimental_analysi.Orchestrator
use mls_experimental_analysi.Orchestrator.{Orchestrator, NextAction, process_commit}
use mls_experimental_analysi.DsLib.{Mls, GroupMessage, WelcomeAcknowledgement}
use mls_experimental_analysi.Agent.{Timing, CgkaAction}
use mls_experimental_analysi.User.{Library, ActionRecord, EpochChange, PostUpdateActions, Body}
use mls_experimental_analysi.User.Monad.{
  Method, ◌>>=◌, ◌>>◌, modify, gets, pure, fail, ask, call, panic, lift, unwrap, map_err, text,
  texts, put_group, ok_or, from_result, group_or, by_agent_type, if_commit,
}
use mls_experimental_analysi.User.Logs.{flush_logs}
use mls_experimental_analysi.User.Delivery.{
  subscribe, unsubscribe, send_ack, send_to_agent, update_clients,
}
use mls_experimental_analysi.User.Commits.{confirm_commit, orchestrator_of, put_orchestrator}
use mls_experimental_analysi.User.Messages.{Update, record_of, num_users, group_now, checked_sub}
use mls_experimental_analysi.User.Receive.{process_protocol_message}

abbrev erase_all : {V : Type 0} → List Bytes → Dict Bytes V → Dict Bytes V
erase_all [] d = d
erase_all (k ∷ ks) d = erase_all ks (erase k d)

abbrev pub is_active : String → Dict String (Bool × ℕ) → Bool
is_active group_name active = elim (lookup group_name active) [
  | some state ↦ state.0
  | none ↦ false
]

module _ {m : Mls} {t : Timing} {l : Library m t} where
  -- The group of a welcome, its epoch and the time that it took.
  unfoldable pub join_group : l.Welcome → m.RatchetTree → Method l (String × (EpochChange × ℕ))
  join_group welcome ratchet_tree = do
    modify (λ u. record u {
      identity = record u.identity { kp = erase_all (l.new_members welcome) u.identity.kp };
    })
    staged_result ← ask (l.stage_welcome welcome ratchet_tree)
    staged ← map_err "Error staging Welcome: " (from_result staged_result)
    group_result ← ask (l.into_group staged)
    mls_group ← map_err "Error joining group: " (from_result group_result)
    elapsed ← ask l.elapsed
    timestamp ← ask l.timestamp
    group_name ← text (l.group_id mls_group)
    put_group group_name (record {
      group_name = group_name;
      conversation = record { messages = [] };
      mls_group = l.set_aad (l.as_bytes (append group_name " AAD")) mls_group;
    })
    pure (group_name, (record { timestamp = timestamp; epoch = l.epoch mls_group }, elapsed))

  -- What an orchestrated user that has joined does next.
  unfoldable pub follow : String → NextAction → Method l (Unit {0})
  follow group_name NextAction.inactive = do
    send_ack group_name
    modify (λ u. record u { groups = erase group_name u.groups })
  follow group_name NextAction.listen = subscribe group_name
  follow group_name NextAction.commit = do subscribe group_name; send_to_agent group_name

  -- The orchestrator of a group that the user has joined: `unreachable!()` without active members.
  abbrev pub join_orchestrator :
      OrchestratedParameters → Option (List Bytes) → Method l Orchestrator
  join_orchestrator params none = panic
  join_orchestrator params (some active) = do
    names ← texts active
    username ← gets (λ u. u.username)
    pure (Orchestrator.new username params names)

  -- The user leaves the group of an update that says so.
  unfoldable pub leave : Option Bytes → Option (ActionRecord t) → Method l (Option (ActionRecord t))
  leave none item = fail "update::Error post update remove must have a group id"
  leave (some group_id) item = do
    group_name ← text group_id
    map_err "Error unsubscribing: " (unsubscribe group_name)
    modify (λ u. record u {
      groups = erase group_name u.groups;
      group_list = retain (λ name. not (name == group_name)) u.group_list;
    })
    pure item

  abbrev pub finish_update : Update t → Method l (Option (ActionRecord t))
  finish_update (item, PostUpdateActions.keep, group_id) = pure item
  finish_update (item, PostUpdateActions.remove, group_id) = do flush_logs; leave group_id item

  module _ (r : Rng) (fuel : ℕ) where
    -- An orchestrated user starts an orchestrator for the group.
    unfoldable pub enter_group :
        String → OrchestratedParameters → Option (List Bytes) → List Bytes → Method l (Unit {0})
    unfolding follow
    enter_group group_name params active_members recipients = do
      orchestrator ← join_orchestrator params active_members
      group ← group_now group_name
      new_members ← texts recipients
      (orchestrator', next_action) ← lift (
          process_commit r fuel orchestrator (l.transcript_hash group.mls_group) (num_users group)
            new_members)
      put_orchestrator group_name orchestrator'
      follow group_name next_action

    abbrev pub enter_by_agent_type : String → Option (List Bytes) → List Bytes → Method l (Unit {0})
    enter_by_agent_type group_name active_members recipients =
        by_agent_type (subscribe group_name)
          (λ params orchestrators. enter_group group_name params active_members recipients)

    unfoldable pub process_welcome :
        l.Welcome → String → GroupMessage m → Method l (Option (ActionRecord t))
    unfolding join_group enter_group
    process_welcome welcome sender msg = do
      ratchet_tree ← ok_or "Welcome message must have ratchet tree" msg.ratchet_tree
      (group_name, (epoch_change, elapsed)) ← join_group welcome ratchet_tree
      modify (λ u. record u { active = insert group_name (true, 0) u.active })
      joined ← group_now group_name
      enter_by_agent_type group_name msg.active_members msg.recipients
      pure (
          some (
            record_of group_name
              (CgkaAction.welcome sender (l.serialized_len msg.msg + l.tree_len msg.ratchet_tree))
              epoch_change elapsed (num_users joined)))

    -- A message of another user.
    abbrev pub process_body :
        Body l.Protocol l.Welcome → String → GroupMessage m → Method l (Option (ActionRecord t))
    process_body (Body.welcome welcome) sender msg = process_welcome welcome sender msg
    process_body (Body.private_message message) sender msg = do
      update ← process_protocol_message r fuel message sender
      finish_update update
    process_body (Body.public_message message) sender msg = do
      update ← process_protocol_message r fuel message sender
      finish_update update
    process_body Body.unsupported sender msg = panic

    -- The user's own message confirms its commit.
    unfoldable pub process_in_message : GroupMessage m → Method l (Option (ActionRecord t))
    unfolding confirm_commit process_welcome leave flush_logs
    process_in_message msg = do
      sender ← text msg.sender
      username ← gets (λ u. u.username)
      if sender == username
          then (do
            message ← unwrap (l.into_protocol_message msg.msg)
            group_name ← text (l.message_group_id message)
            confirm_commit r fuel group_name
            pure none)
          else process_body (l.extract msg.msg) sender msg

    abbrev pub process_in_messages : List (GroupMessage m) → Method l (Unit {0})
    process_in_messages [] = pure tt
    process_in_messages (msg ∷ msgs) = do process_in_message msg; process_in_messages msgs

    -- The conversation messages that the method returns are always none.
    unfoldable pub fetch_updates : Method l (Unit {0})
    unfolding process_in_message update_clients
    fetch_updates = do
      identity ← gets (λ u. u.identity)
      msgs ← call (l.recv_msgs identity.credential)
      process_in_messages msgs
      update_clients

  -- An acknowledgement of another user goes to the orchestrator of its group.
  unfoldable pub process_ack : WelcomeAcknowledgement → Method l (Unit {0})
  process_ack ack = do
    username ← gets (λ u. u.username)
    if ack.sender == username
        then pure tt
        else by_agent_type (pure tt) (λ params orchestrators. do
          orchestrator ← orchestrator_of ack.group
          put_orchestrator ack.group (Orchestrator.process_ack orchestrator).0
          if_commit (Orchestrator.process_ack orchestrator).1 (send_to_agent ack.group))

  -- The policy on the user's leaf, in numbers of `u32`.
  unfoldable pub is_authorised : String → AuthorizationPolicy → Method l Bool
  is_authorised group_name policy = do
    active ← gets (λ u. u.active)
    if is_active group_name active
        then (do
          group ← group_or "Unknown group" group_name
          elim policy [
            | AuthorizationPolicy.random ↦ pure true
            | AuthorizationPolicy.first ↦ pure (l.own_leaf_index group.mls_group == 0)
            | AuthorizationPolicy.last ↦ do
              last ← lift (checked_sub (num_users group % 2 ^ 32) 1)
              pure (l.own_leaf_index group.mls_group == last)
          ])
        else pure false
