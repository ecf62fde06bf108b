-- ===== src/User/Arrivals.antt =====
-- What a message from another user, once it has reached the user of
-- emulated_client/src/user.rs, leaves alone.
use mls_experimental_analysi.Base.{
  ℕ, returns, Result, ok, Post, String, string_eq, Bytes, true, List, Option, none, some, ◌≡◌, refl,
}
use mls_experimental_analysi.Base.Dict.{Dict, insert, erase, lookup}
use mls_experimental_analysi.Rng.{Rng}
use mls_experimental_analysi.Config.{OrchestratedParameters}
use mls_experimental_analysi.Orchestrator.{NextAction}
use mls_experimental_analysi.DsLib.{Mls, GroupMessage}
use mls_experimental_analysi.Agent.{Timing}
use mls_experimental_analysi.User.{
  Library, User, ActionRecord, PostUpdateActions, Body, PendingCommit,
}
use mls_experimental_analysi.User.Monad.{modify}
use mls_experimental_analysi.User.Keeps.{
  Keeps, IsFrame, keeps_rules, Keeps-bind, Keeps-pure, Keeps-modify, Keeps-panic, Keeps-map_err,
  Keeps-unwrap, Keeps-fail,
}
use mls_experimental_analysi.User.Frames.{
  Keeps-flush_logs, Keeps-subscribe, Keeps-unsubscribe, Keeps-send_ack, Keeps-send_to_agent,
  Keeps-put_orchestrator, Keeps-confirm_pending,
}
use mls_experimental_analysi.User.Reception.{Keeps-process_protocol_message}
use mls_experimental_analysi.User.Messages.{Update}
use mls_experimental_analysi.User.Commits.{confirm_pending, confirm_commit}
use mls_experimental_analysi.User.Inbox.{
  join_group, follow, leave, finish_update, join_orchestrator, enter_group, process_welcome,
  process_body, process_in_message,
}

module _ {m : Mls} {t : Timing} {l : Library m t} {P : User l → Type 0} (frame : IsFrame P) where
  Keeps-leave :
      (group_id : Option Bytes) (item : Option (ActionRecord t))
      → Keeps P (leave {l = l} group_id item)
  unfolding leave
  Keeps-leave none item = Keeps-fail _
  Keeps-leave (some group_id) item = Keeps-bind _ _ (Keeps-unwrap _) (λ name.
      Keeps-bind _ _ (Keeps-map_err _ _ (Keeps-unsubscribe frame name)) (λ _.
        Keeps-bind _ _ (Keeps-modify _ (λ u h. frame.of_list _ _ (frame.of_groups u _ h)))
          (λ _. Keeps-pure item)))

  Keeps-finish_update : (update : Update t) → Keeps P (finish_update {l = l} update)
  Keeps-finish_update (item, PostUpdateActions.keep, group_id) = Keeps-pure item
  Keeps-finish_update (item, PostUpdateActions.remove, group_id) =
      Keeps-bind _ _ (Keeps-flush_logs frame) (λ _. Keeps-leave group_id item)

  Keeps-forget : (name : String) → Keeps P (follow {l = l} name NextAction.inactive)
  unfolding follow
  Keeps-forget name =
      Keeps-bind _ _ (Keeps-send_ack frame name)
        (λ _. Keeps-modify _ (λ u h. frame.of_groups u _ h))

  Keeps-follow : (name : String) (next : NextAction) → Keeps P (follow {l = l} name next)
  unfolding follow
  Keeps-follow name NextAction.inactive = Keeps-forget name
  Keeps-follow name NextAction.listen = Keeps-subscribe frame name
  Keeps-follow name NextAction.commit =
      Keeps-bind _ _ (Keeps-subscribe frame name) (λ _. Keeps-send_to_agent frame name)

  Keeps-join_orchestrator :
      (params : OrchestratedParameters) (active : Option (List Bytes))
      → Keeps P (join_orchestrator {l = l} params active)
  Keeps-join_orchestrator params none = Keeps-panic
  Keeps-join_orchestrator params (some active) = search keeps_rules

  Keeps-consume :
      (welcome : l.Welcome) (tree : m.RatchetTree) → Keeps P (join_group {l = l} welcome tree)
  unfolding join_group
  Keeps-consume welcome tree =
      Keeps-bind _ _ (Keeps-modify _ (λ u h. frame.of_identity u _ h))
        (λ _. search keeps_rules depth 14)

  module _ (r : Rng) (fuel : ℕ) where
    Keeps-enter_group :
        (name : String) (params : OrchestratedParameters) (active : Option (List Bytes))
        (recipients : List Bytes)
        → Keeps P (enter_group {l = l} r fuel name params active recipients)
    unfolding enter_group
    Keeps-enter_group name params active recipients =
        search (keeps_rules, Keeps-join_orchestrator, Keeps-follow, Keeps-put_orchestrator) depth 12

    module _
        (joins : (u : User l) (name : String)
          → P u
          → P (record u { active = insert name (true, 0) u.active })) where
      Keeps-join :
          (name : String)
          → Keeps P (modify {l = l} (λ u. record u { active = insert name (true, 0) u.active }))
      Keeps-join name = Keeps-modify _ (λ u h. joins u name h)

      pub Keeps-process_welcome :
          (welcome : l.Welcome) (sender : String) (msg : GroupMessage m)
          → Keeps P (process_welcome {l = l} r fuel welcome sender msg)
      unfolding process_welcome
      Keeps-process_welcome welcome sender msg =
          search (keeps_rules, Keeps-consume, Keeps-join, Keeps-subscribe, Keeps-enter_group) depth
            14

    pub Keeps-process_body :
        (body : Body l.Protocol l.Welcome) (sender : String) (msg : GroupMessage m)
        → ((welcome : l.Welcome)
            → body ≡ Body.welcome welcome
            → Keeps P (process_welcome {l = l} r fuel welcome sender msg))
        → Keeps P (process_body {l = l} r fuel body sender msg)
    Keeps-process_body (Body.welcome welcome) sender msg joins = joins welcome refl
    Keeps-process_body (Body.private_message message) sender msg joins =
        Keeps-bind _ _ (Keeps-process_protocol_message frame r fuel message sender)
          (λ update. Keeps-finish_update update)
    Keeps-process_body (Body.public_message message) sender msg joins =
        Keeps-bind _ _ (Keeps-process_protocol_message frame r fuel message sender)
          (λ update. Keeps-finish_update update)
    Keeps-process_body Body.unsupported sender msg joins = Keeps-panic

    module _
        (settles : (u : User l) (d : Dict String (PendingCommit l))
          → P u
          → P (record u { pending_commits = d })) where
      pub Keeps-confirm_commit : (name : String) → Keeps P (confirm_commit {l = l} r fuel name)
      unfolding confirm_commit
      Keeps-confirm_commit name = record { at = λ u h. by_case u (lookup name u.pending_commits) h }
        where
          by_case :
              (u : User l) (known : Option (PendingCommit l))
              → P u
              → Post {A = User l × Result (Unit {0})}
                  (λ q. P q.0)
                  (elim known [
                    | none ↦ returns (u, ok tt)
                    | some pending ↦
                        confirm_pending {l = l} r fuel name pending
                          (record u { pending_commits = erase name u.pending_commits })
                  ])
          by_case u none h = h
          by_case u (some pending) h =
              (Keeps-confirm_pending frame r fuel name pending).at _ (settles u _ h)

      pub Keeps-process_in_message :
          (msg : GroupMessage m)
          → ((sender : String)
              → Keeps P (process_body {l = l} r fuel (l.extract msg.msg) sender msg))
          → Keeps P (process_in_message {l = l} r fuel msg)
      unfolding process_in_message
      Keeps-process_in_message msg body = search (keeps_rules, body, Keeps-confirm_commit) depth 10
