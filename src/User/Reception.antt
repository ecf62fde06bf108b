-- ===== src/User/Reception.antt =====
-- What a received message leaves alone in the user of emulated_client/src/user.rs.
use mls_experimental_analysi.Base.{
  ℕ, String, string_eq, Bytes, Bool, List, [], ◌∷◌, Option, none, some, nat_eq,
}
use mls_experimental_analysi.Rng.{Rng}
use mls_experimental_analysi.DsLib.{Mls}
use mls_experimental_analysi.Agent.{Timing}
use mls_experimental_analysi.User.{
  Library, User, Group, EpochChange, ContentType, Processed, Receipt,
}
use mls_experimental_analysi.User.Keeps.{
  Keeps, IsFrame, keeps_rules, Keeps-bind, Keeps-unwrap, Keeps-pure, Keeps-modify, Keeps-gets,
}
use mls_experimental_analysi.User.Frames.{Keeps-send_to_agent, Keeps-orchestrate}
use mls_experimental_analysi.User.Messages.{next_after, absorb_commit, absorb, removed_names}
use mls_experimental_analysi.User.Receive.{
  digest, process, notice, fall_behind, process_in_group, process_if_known,
  process_protocol_message,
}

module _ {m : Mls} {t : Timing} {l : Library m t} {P : User l → Type 0} (frame : IsFrame P) where
  Keeps-removed_names :
      (group : l.MlsGroup) (removed : List ℕ) → Keeps P (removed_names {l = l} group removed)
  Keeps-removed_names group [] = Keeps-pure []
  Keeps-removed_names group (index ∷ rest) = Keeps-bind _ _ (Keeps-unwrap _) (λ _.
      Keeps-bind _ _ (Keeps-unwrap _)
        (λ _. Keeps-bind _ _ (Keeps-removed_names group rest) (λ _. Keeps-pure _)))

  module _ (r : Rng) (fuel : ℕ) where
    Keeps-next_after :
        (name : String) (removed : List String) (hash : Bytes) (members : ℕ) (added : List String)
        → Keeps P (next_after {l = l} r fuel name removed hash members added)
    unfolding next_after
    Keeps-next_after name removed hash members added =
        search (keeps_rules, Keeps-orchestrate) depth 8

    Keeps-absorb_commit :
        (commit : l.Staged) (sender name : String) (group : Group l) (epoch : ℕ)
        (change : EpochChange)
        → Keeps P (absorb_commit {l = l} r fuel commit sender name group epoch change)
    unfolding absorb_commit
    Keeps-absorb_commit commit sender name group epoch change =
        search (keeps_rules, Keeps-removed_names, Keeps-next_after, Keeps-send_to_agent) depth 14

    Keeps-absorb :
        (content : Processed l.Staged l.Queued) (sender_name sender name : String) (group : Group l)
        (epoch : ℕ) (change : EpochChange)
        → Keeps P (absorb {l = l} r fuel content sender_name sender name group epoch change)
    unfolding absorb
    Keeps-absorb (Processed.application bytes) sender_name sender name group epoch change =
        search keeps_rules depth 8
    Keeps-absorb (Processed.proposal queued) sender_name sender name group epoch change =
        search keeps_rules depth 10
    Keeps-absorb Processed.external_join_proposal sender_name sender name group epoch change =
        search keeps_rules
    Keeps-absorb (Processed.staged_commit commit) sender_name sender name group epoch change =
        Keeps-absorb_commit commit sender name group epoch change

    Keeps-digest :
        (receipt : Receipt l.Staged l.Queued) (sender name : String) (group : Group l) (epoch : ℕ)
        (change : EpochChange)
        → Keeps P (digest {l = l} r fuel receipt sender name group epoch change)
    unfolding digest
    Keeps-digest Receipt.conflict sender name group epoch change = search keeps_rules
    Keeps-digest (Receipt.refused e) sender name group epoch change = search keeps_rules
    Keeps-digest (Receipt.accepted identity content) sender name group epoch change =
        search (keeps_rules, Keeps-absorb)

    Keeps-process :
        (message : l.Protocol) (sender name : String) (group : Group l) (epoch : ℕ)
        (change : EpochChange)
        → Keeps P (process {l = l} r fuel message sender name group epoch change)
    unfolding process
    Keeps-process message sender name group epoch change =
        search (keeps_rules, Keeps-digest) depth 8

    Keeps-notice :
        (known : Option (Bool × ℕ)) (message : l.Protocol) (sender name : String) (group : Group l)
        (epoch : ℕ) (change : EpochChange)
        → Keeps P (notice {l = l} r fuel known message sender name group epoch change)
    unfolding notice
    Keeps-notice none message sender name group epoch change =
        Keeps-process message sender name group epoch _
    Keeps-notice (some known) message sender name group epoch change = search keeps_rules

    Keeps-fall_behind :
        (content : ContentType) (message : l.Protocol) (sender name : String) (group : Group l)
        (epoch : ℕ) (change : EpochChange)
        → Keeps P (fall_behind {l = l} r fuel content message sender name group epoch change)
    unfolding fall_behind
    Keeps-fall_behind ContentType.commit message sender name group epoch change =
        Keeps-bind _ _ (Keeps-gets _) (λ _.
          Keeps-bind _ _ (Keeps-modify _ (λ u h. frame.of_behind u name _ h))
            (λ _. Keeps-notice _ message sender name group epoch change))
    Keeps-fall_behind ContentType.application message sender name group epoch change = Keeps-pure _
    Keeps-fall_behind ContentType.proposal message sender name group epoch change = Keeps-pure _

    Keeps-process_in_group :
        (message : l.Protocol) (sender name : String) (group : Group l)
        → Keeps P (process_in_group {l = l} r fuel message sender name group)
    unfolding process_in_group
    Keeps-process_in_group message sender name group =
        search (keeps_rules, Keeps-fall_behind, Keeps-process) depth 8

    Keeps-process_if_known :
        (known : Option (Group l)) (message : l.Protocol) (sender name : String)
        → Keeps P (process_if_known {l = l} r fuel known message sender name)
    Keeps-process_if_known none message sender name = Keeps-pure _
    Keeps-process_if_known (some group) message sender name =
        Keeps-process_in_group message sender name group

    pub Keeps-process_protocol_message :
        (message : l.Protocol) (sender : String)
        → Keeps P (process_protocol_message {l = l} r fuel message sender)
    unfolding process_protocol_message
    Keeps-process_protocol_message message sender =
        search (keeps_rules, Keeps-process_if_known) depth 8
