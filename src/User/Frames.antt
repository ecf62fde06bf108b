-- ===== src/User/Frames.antt =====
-- What the methods of emulated_client/src/user.rs that send and confirm leave alone.
use mls_experimental_analysi.Base.{
  ℕ, String, string_eq, Bytes, List, [], ◌∷◌, ◌++◌, Option, none, some, ◌≡◌, refl, Outcome, returns,
  panics, spins, Result, ok, err, Post,
}
use mls_experimental_analysi.Base.Dict.{insert}
use mls_experimental_analysi.Rng.{Rng}
use mls_experimental_analysi.Orchestrator.{Orchestrator}
use mls_experimental_analysi.DsLib.{Mls, GroupMessage, GroupInfoAndTree}
use mls_experimental_analysi.Agent.{Timing}
use mls_experimental_analysi.User.{
  Library, User, Contact, AgentType, ActionRecord, StoredWelcome, PendingCommit,
}
use mls_experimental_analysi.User.Monad.{modify, pure, panic, by_agent_type}
use mls_experimental_analysi.User.Keeps.{
  Keeps, IsFrame, keeps_rules, Keeps-modify, Keeps-bind, Keeps-gets, Keeps-if, Keeps-pure,
  Keeps-attempt, Keeps-call,
}
use mls_experimental_analysi.User.Logs.{flush_logs, write_timestamp, page}
use mls_experimental_analysi.User.Delivery.{
  subscribe, unsubscribe, send_ack, send_to_agent, send_to_group, publish_info, add_contact,
  add_contacts, update_clients,
}
use mls_experimental_analysi.User.Commits.{
  orchestrator_of, put_orchestrator, active_members, send_welcomes, welcome_members, orchestrate,
  elect_next, conclude, confirm_pending,
}

module _ {m : Mls} {t : Timing} {l : Library m t} {P : User l → Type 0} (frame : IsFrame P) where
  pub Keeps-flush_logs : Keeps P (flush_logs {l = l})
  unfolding flush_logs
  Keeps-flush_logs = record {
    at = λ u h. by_outcome u h (l.append_file (page l.format u.username u.file_buffer) u.env);
  }
    where
      by_outcome :
          (u : User l) (h : P u) (o : Outcome l.Env)
          → Post {A = User l × Result (Unit {0})}
              (λ q. P q.0)
              (elim o [
                | returns env ↦ returns (record u { file_buffer = []; env = env }, ok tt)
                | panics ↦ panics
                | spins ↦ spins
              ])
      by_outcome u h (returns env) = frame.of_env _ env (frame.of_buffer u [] h)
      by_outcome u h panics = tt
      by_outcome u h spins = tt

  Keeps-buffer :
      (item : ActionRecord t)
      → Keeps P (modify {l = l} (λ u. record u { file_buffer = u.file_buffer ++ item ∷ [] }))
  Keeps-buffer item = Keeps-modify _ (λ u h. frame.of_buffer u _ h)

  pub Keeps-write_timestamp : (item : ActionRecord t) → Keeps P (write_timestamp {l = l} item)
  unfolding write_timestamp
  Keeps-write_timestamp item = search (keeps_rules, Keeps-buffer, Keeps-flush_logs)

  pub Keeps-subscribe : (name : String) → Keeps P (subscribe {l = l} name)
  unfolding subscribe
  Keeps-subscribe name = search keeps_rules

  pub Keeps-unsubscribe : (name : String) → Keeps P (unsubscribe {l = l} name)
  unfolding unsubscribe
  Keeps-unsubscribe name = search keeps_rules

  pub Keeps-send_to_group :
      (name : String) (msg : m.Message) (recipients : List Bytes)
      → Keeps P (send_to_group {l = l} name msg recipients)
  unfolding send_to_group
  Keeps-send_to_group name msg recipients = search keeps_rules

  pub Keeps-send_ack : (name : String) → Keeps P (send_ack {l = l} name)
  unfolding send_ack
  Keeps-send_ack name = search keeps_rules

  pub Keeps-send_to_agent : (name : String) → Keeps P (send_to_agent {l = l} name)
  unfolding send_to_agent
  Keeps-send_to_agent name = search keeps_rules

  pub Keeps-publish_info :
      (group : l.MlsGroup) (info : Option (GroupInfoAndTree m))
      → Keeps P (publish_info {l = l} group info)
  unfolding publish_info
  Keeps-publish_info group none = search keeps_rules depth 12
  Keeps-publish_info group (some info) = search keeps_rules depth 12

  pub Keeps-orchestrator_of : (name : String) → Keeps P (orchestrator_of {l = l} name)
  unfolding orchestrator_of
  Keeps-orchestrator_of name = search keeps_rules

  pub Keeps-put_orchestrator :
      (name : String) (o : Orchestrator) → Keeps P (put_orchestrator {l = l} name o)
  unfolding put_orchestrator by_agent_type modify panic
  Keeps-put_orchestrator name o = record { at = λ u h. by_case u u.agent_type refl h }
    where
      by_case :
          (u : User l) (agent_type : AgentType)
          → u.agent_type ≡ agent_type
          → P u
          → Post {A = User l × Result (Unit {0})}
              (λ q. P q.0)
              (elim agent_type [
                | AgentType.independent ↦ panics
                | AgentType.orchestrator p d ↦
                    returns
                      (record u { agent_type = AgentType.orchestrator p (insert name o d) }, ok tt)
              ])
      by_case u AgentType.independent e h = tt
      by_case u (AgentType.orchestrator p d) e h = frame.of_orchestrators u p d _ e h

  Keeps-active_members : (name : String) → Keeps P (active_members {l = l} name)
  unfolding active_members
  Keeps-active_members name = search (keeps_rules, Keeps-orchestrator_of) depth 8

  Keeps-send_welcomes :
      (msg : GroupMessage m) (recipients : List String)
      → Keeps P (send_welcomes {l = l} msg recipients)
  unfolding send_welcomes
  Keeps-send_welcomes msg [] = search keeps_rules
  Keeps-send_welcomes msg (recipient ∷ recipients) =
      Keeps-bind _ _ (search keeps_rules) (λ _. Keeps-send_welcomes msg recipients)

  Keeps-welcome_members :
      (name : String) (tree : m.RatchetTree) (stored : Option (StoredWelcome l))
      → Keeps P (welcome_members {l = l} name tree stored)
  unfolding welcome_members
  Keeps-welcome_members name tree none = search keeps_rules
  Keeps-welcome_members name tree (some stored) =
      search (keeps_rules, Keeps-active_members, Keeps-send_welcomes) depth 8

  module _ (r : Rng) (fuel : ℕ) where
    pub Keeps-orchestrate :
        (name : String) (removed : List String) (hash : Bytes) (total : ℕ) (added : List String)
        → Keeps P (orchestrate {l = l} r fuel name removed hash total added)
    unfolding orchestrate
    Keeps-orchestrate name removed hash total added =
        search (keeps_rules, Keeps-orchestrator_of, Keeps-put_orchestrator) depth 8

    Keeps-elect_next :
        (name : String) (removed : List String) (group : l.MlsGroup) (added : List String)
        → Keeps P (elect_next {l = l} r fuel name removed group added)
    unfolding elect_next
    Keeps-elect_next name removed group added =
        search (keeps_rules, Keeps-orchestrate, Keeps-send_to_agent)

    Keeps-conclude :
        (name : String) (info : Option m.GroupInfo) (tree : m.RatchetTree) (group : l.MlsGroup)
        (added : List String) (item : ActionRecord t)
        → Keeps P (conclude {l = l} r fuel name info tree group added item)
    unfolding conclude
    Keeps-conclude name info tree group added item =
        search (keeps_rules, Keeps-publish_info, Keeps-elect_next) depth 8

    pub Keeps-confirm_pending :
        (name : String) (pending : PendingCommit l)
        → Keeps P (confirm_pending {l = l} r fuel name pending)
    unfolding confirm_pending
    Keeps-confirm_pending name pending =
        search (keeps_rules, Keeps-welcome_members, Keeps-conclude, Keeps-write_timestamp) depth 12

  Keeps-add_contact : (contact : Contact) → Keeps P (add_contact {l = l} contact)
  unfolding add_contact
  Keeps-add_contact contact =
      Keeps-bind _ _ (Keeps-gets _)
        (λ i. Keeps-if _ _ _ (Keeps-pure tt) (Keeps-modify _ (λ u h. frame.of_contacts u _ h)))

  Keeps-add_contacts : (contacts : List Contact) → Keeps P (add_contacts {l = l} contacts)
  Keeps-add_contacts [] = Keeps-pure tt
  Keeps-add_contacts (contact ∷ contacts) =
      Keeps-bind _ _ (Keeps-add_contact contact) (λ _. Keeps-add_contacts contacts)

  pub Keeps-update_clients : Keeps P (update_clients {l = l})
  unfolding update_clients
  Keeps-update_clients = Keeps-bind _ _ (Keeps-attempt _ (Keeps-call frame _)) (by_result)
    where
      by_result :
          (r : Result (List Contact))
          → Keeps P (elim r [ ok clients ↦ add_contacts {l = l} clients | err _ ↦ pure tt ])
      by_result (ok clients) = Keeps-add_contacts clients
      by_result (err e) = Keeps-pure tt
