-- ===== src/User/Messages.antt =====
-- What a message of a group changes in the user of emulated_client/src/user.rs, once OpenMLS has
-- processed it. The log lines are left out.
use mls_experimental_analysi.Base.{
  ℕ, suc, ◌+◌, ◌-◌, String, string_eq, Bytes, bytes_eq, Bool, true, false, ◌||◌, List, [], ◌∷◌,
  Option, none, some, length, ltb, if◌then◌else◌, ◌==◌, nat_eq, Outcome, returns, panics,
}
use mls_experimental_analysi.Base.Dict.{lookup}
use mls_experimental_analysi.Rng.{Rng}
use mls_experimental_analysi.Orchestrator.{NextAction}
use mls_experimental_analysi.Conversation
use mls_experimental_analysi.DsLib.{Mls}
use mls_experimental_analysi.Agent.{Timing, CgkaAction}
use mls_experimental_analysi.User.{
  Library, Group, ActionRecord, EpochChange, PostUpdateActions, Processed,
}
use mls_experimental_analysi.User.Monad.{
  Method, ◌>>=◌, ◌>>◌, gets, pure, ask, lift, unwrap, map_err, text, texts, on_group, put_group,
  by_agent_type, if_commit,
}
use mls_experimental_analysi.User.Delivery.{send_to_agent}
use mls_experimental_analysi.User.Commits.{orchestrate}

-- A number of `usize` less another, which panics below 0.
abbrev pub checked_sub : ℕ → ℕ → Outcome ℕ
checked_sub a b = if ltb a b then panics else returns (a - b)

-- `member_at`, for the members' indices.
abbrev pub member_at : ℕ → List (ℕ × Bytes) → Option Bytes
member_at index [] = none
member_at index ((i, identity) ∷ members) =
    if i == index then some identity else member_at index members

abbrev is_inactive : NextAction → Bool
is_inactive NextAction.inactive = true
is_inactive NextAction.listen = false
is_inactive NextAction.commit = false

abbrev pub Update : Timing → Type 0
Update t = Option (ActionRecord t) × PostUpdateActions × Option Bytes

abbrev pub no_update : {t : Timing} → Update t
no_update = (none, PostUpdateActions.keep, none)

-- The record of an action, with the number of the group's members after it.
abbrev pub record_of : {t : Timing} → String → CgkaAction t → EpochChange → ℕ → ℕ → ActionRecord t
record_of group_name action epoch_change elapsed num_users = record {
  group_name = group_name;
  action = action;
  epoch_change = epoch_change;
  elapsed_time = elapsed;
  num_users = num_users;
}

module _ {m : Mls} {t : Timing} {l : Library m t} where
  -- The number of members of a group that the user holds.
  abbrev pub num_users : Group l → ℕ
  num_users group = length (l.members group.mls_group)

  -- The names of the members that a staged commit removes.
  abbrev pub removed_names : l.MlsGroup → List ℕ → Method l (List String)
  removed_names group [] = pure []
  removed_names group (index ∷ rest) = do
    identity ← unwrap (member_at index (l.members group))
    name ← text identity
    names ← removed_names group rest
    pure (name ∷ names)

  -- The group as the user holds it.
  abbrev pub group_now : String → Method l (Group l)
  group_now group_name = do groups ← gets (λ u. u.groups); unwrap (lookup group_name groups)

  module _ (r : Rng) (fuel : ℕ) where
    -- What the agent is to do after another client's commit. An independent one goes inactive on the
    -- toss of a coin.
    unfoldable pub next_after : String → List String → Bytes → ℕ → List String → Method l NextAction
    next_after group_name removed hash num_group_members added =
        by_agent_type
          (do heads ← ask l.coin; pure (if heads then NextAction.inactive else NextAction.listen))
          (λ params orchestrators. do
            total ← lift (checked_sub (num_group_members + length added) (length removed))
            orchestrate r fuel group_name removed hash total added)

    -- A staged commit of another client.
    unfoldable pub absorb_commit :
        l.Staged → String → String → Group l → ℕ → EpochChange → Method l (Update t)
    unfolding next_after
    absorb_commit commit sender group_name group group_epoch epoch_change = do
      new_members ← texts (l.add_names commit)
      removed_members ← removed_names group.mls_group (l.removed commit)
      let num_group_members = length (l.members group.mls_group)
      map_err "Error merging commit: " (on_group group_name group (l.merge_staged_commit commit))
      merged ← group_now group_name
      elapsed ← ask l.elapsed
      next_action ←
          next_after group_name removed_members (l.staged_hash commit) num_group_members new_members
      if l.self_removed commit || is_inactive next_action
          then (do
            elapsed' ← ask l.elapsed
            pure (
              some (
                  record_of group_name (CgkaAction.process sender)
                    (record { timestamp = epoch_change.timestamp; epoch = suc group_epoch })
                    elapsed' (num_users merged)),
              PostUpdateActions.remove,
              some (l.group_id merged.mls_group),
            ))
          else (do
            (process_time, merge_time) ← ask {A = t.ProcessCryptoTime × t.MergeTime} l.process_times
            if_commit next_action (send_to_agent group_name)
            pure (
              some (
                  record_of group_name (CgkaAction.deep_process sender process_time merge_time)
                    (record epoch_change { epoch = suc epoch_change.epoch }) elapsed
                    (num_users merged)),
              PostUpdateActions.keep,
              none,
            ))

    -- The content of a message that was processed.
    unfoldable pub absorb :
        Processed l.Staged l.Queued
        → String
        → String
        → String
        → Group l
        → ℕ
        → EpochChange
        → Method l (Update t)
    unfolding absorb_commit
    absorb (Processed.application bytes) sender_name sender group_name group group_epoch
          epoch_change =
        do
          message ← text bytes
          let conversation =
              Conversation.add group.conversation
                (record { author = sender_name; message = message })
          put_group group_name (record group { conversation = conversation })
          _ ← ask l.elapsed
          pure no_update
    absorb (Processed.proposal queued) sender_name sender group_name group group_epoch
          epoch_change =
        do
          map_err "Error storing proposal: "
              (on_group group_name group (l.store_pending_proposal queued))
          elapsed ← ask l.elapsed
          stored ← group_now group_name
          pure (
            some (
                record_of group_name (CgkaAction.store_prop sender) epoch_change elapsed
                  (num_users stored)),
            PostUpdateActions.keep,
            none,
          )
    absorb Processed.external_join_proposal sender_name sender group_name group group_epoch
          epoch_change =
        do _ ← ask l.elapsed; pure no_update
    absorb (Processed.staged_commit commit) sender_name sender group_name group group_epoch
          epoch_change =
        absorb_commit commit sender group_name group group_epoch epoch_change
