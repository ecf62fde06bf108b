-- ===== src/User/Receive.antt =====
-- The messages of a group that a user of emulated_client/src/user.rs receives:
-- `process_protocol_message`. The log lines are left out.
use mls_experimental_analysi.Base.{
  ℕ, suc, String, string_eq, bytes_eq, Bool, false, ◌||◌, Option, none, some, ltb, if◌then◌else◌,
  ◌==◌, nat_eq, ok,
}
use mls_experimental_analysi.Base.Dict.{lookup, insert}
use mls_experimental_analysi.Rng.{Rng}
use mls_experimental_analysi.DsLib.{Mls}
use mls_experimental_analysi.Agent.{Timing, CgkaAction}
use mls_experimental_analysi.User.{
  Library, Group, EpochChange, PostUpdateActions, ContentType, Receipt,
}
use mls_experimental_analysi.User.Monad.{
  Method, ◌>>=◌, ◌>>◌, modify, gets, pure, fail, ask, text, on_group,
}
use mls_experimental_analysi.User.Messages.{absorb, record_of, group_now, no_update, Update}

module _ {m : Mls} {t : Timing} {l : Library m t} where
  module _ (r : Rng) (fuel : ℕ) where
    -- What follows from the end of `process_message`. A conflict drops the message.
    unfoldable pub digest :
        Receipt l.Staged l.Queued
        → String
        → String
        → Group l
        → ℕ
        → EpochChange
        → Method l (Update t)
    unfolding absorb
    digest Receipt.conflict sender group_name group group_epoch epoch_change = pure no_update
    digest (Receipt.refused e) sender group_name group group_epoch epoch_change = fail e
    digest (Receipt.accepted identity content) sender group_name group group_epoch epoch_change = do
      sender_name ← text identity
      absorb {l = l} r fuel content sender_name sender group_name group group_epoch epoch_change

    -- A message that is given to OpenMLS.
    unfoldable pub process :
        l.Protocol → String → String → Group l → ℕ → EpochChange → Method l (Update t)
    unfolding digest
    process message sender group_name group group_epoch epoch_change = do
      receipt ← on_group group_name group (λ mls_group env.
          let (env', mls_group', receipt) = l.process_message message mls_group env in
          (env', mls_group', ok receipt))
      group' ← group_now group_name
      digest receipt sender group_name group' group_epoch epoch_change

    -- What a user that falls behind says of a commit, by what it knew of the group before.
    unfoldable pub notice :
        Option (Bool × ℕ)
        → l.Protocol
        → String
        → String
        → Group l
        → ℕ
        → EpochChange
        → Method l (Update t)
    unfolding process
    notice none message sender group_name group group_epoch epoch_change =
        process message sender group_name group group_epoch
          (record epoch_change { epoch = suc epoch_change.epoch })
    notice (some (was_active, previous)) message sender group_name group group_epoch epoch_change =
        if (previous == epoch_change.epoch) || was_active
        then pure (
          some (
              record_of group_name (CgkaAction.process sender)
                (record epoch_change { epoch = suc epoch_change.epoch }) 0 0),
          PostUpdateActions.keep,
          none,
        )
        else pure no_update

    -- A message of a later epoch than the group's.
    unfoldable pub fall_behind :
        ContentType → l.Protocol → String → String → Group l → ℕ → EpochChange → Method l (Update t)
    unfolding notice
    fall_behind ContentType.commit message sender group_name group group_epoch epoch_change = do
      active ← gets (λ u. u.active)
      modify (λ u. record u { active = insert group_name (false, suc epoch_change.epoch) u.active })
      notice (lookup group_name active) message sender group_name group group_epoch epoch_change
    fall_behind ContentType.application message sender group_name group group_epoch epoch_change =
        pure no_update
    fall_behind ContentType.proposal message sender group_name group group_epoch epoch_change =
        pure no_update

    -- A message to a group that the user knows.
    unfoldable pub process_in_group : l.Protocol → String → String → Group l → Method l (Update t)
    unfolding fall_behind
    process_in_group message sender group_name group = do
      timestamp ← ask l.timestamp
      let group_epoch = l.epoch group.mls_group
      let epoch_change : EpochChange = record {
        timestamp = timestamp;
        epoch = l.message_epoch message;
      }
      if ltb group_epoch (l.message_epoch message)
          then fall_behind (l.content_type message) message sender group_name group group_epoch
              epoch_change
          else process message sender group_name group group_epoch epoch_change

    -- A message to a group that the user does not know is dropped.
    abbrev pub process_if_known :
        Option (Group l) → l.Protocol → String → String → Method l (Update t)
    process_if_known none message sender group_name = pure no_update
    process_if_known (some group) message sender group_name =
        process_in_group message sender group_name group

    unfoldable pub process_protocol_message : l.Protocol → String → Method l (Update t)
    unfolding process_in_group
    process_protocol_message message sender = do
      group_name ← text (l.message_group_id message)
      groups ← gets (λ u. u.groups)
      process_if_known (lookup group_name groups) message sender group_name
