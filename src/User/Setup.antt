-- ===== src/User/Setup.antt =====
-- A new user of emulated_client/src/user.rs, and the user as the agents see it.
use mls_experimental_analysi.Base.{
  ℕ, String, string_eq, List, [], Option, none, some, returns, panics, spins, ok, err,
}
use mls_experimental_analysi.Base.Dict.{lookup, keys}
use mls_experimental_analysi.Rng.{Rng}
use mls_experimental_analysi.Config.{OrchestratedParameters}
use mls_experimental_analysi.Identity.{new_identity}
use mls_experimental_analysi.DsLib.{Mls, GroupInfoAndTree}
use mls_experimental_analysi.Agent
use mls_experimental_analysi.Agent.{Timing, Call}
use mls_experimental_analysi.User.{Library, User, DeliveryService, AgentType}
use mls_experimental_analysi.User.Monad.{Method}
use mls_experimental_analysi.User.Members.{
  Members, members_of_group, not_members_of_group, number_of_members,
}
use mls_experimental_analysi.User.Delivery.{
  group_exists, get_group_info, publish_group_info, update_clients,
}
use mls_experimental_analysi.User.Inbox.{fetch_updates, is_authorised}
use mls_experimental_analysi.User.Groups.{
  create_group, external_join, invite, remove, update_state, send_application_msg,
}
use mls_experimental_analysi.User.Proposals.{propose, pending_proposals, commit_to_proposals}

module _ {m : Mls} {t : Timing} (l : Library m t) where
  abbrev new_user : AgentType → String → DeliveryService → l.Env → User l
  new_user agent_type username ds env =
      let id = l.as_bytes username in
      let (env', kp) = l.build_key_package (record { kp = []; credential = id }) env in
      record {
        username = username;
        contacts = [];
        groups = [];
        group_list = [];
        identity = new_identity id (l.hash_ref kp) kp;
        pending_commits = [];
        ds = ds;
        active = [];
        agent_type = agent_type;
        file_buffer = [];
        env = env';
      }

  unfoldable pub new_orchestrated :
      String → DeliveryService → OrchestratedParameters → l.Env → User l
  new_orchestrated username ds params env =
      new_user (AgentType.orchestrator params []) username ds env

  unfoldable pub new_independent : String → DeliveryService → l.Env → User l
  new_independent username ds env = new_user AgentType.independent username ds env

  -- `group_list`, and `list_of_groups`
  abbrev pub group_names : User l → List String
  group_names u = keys u.groups

  -- The members of a group, where the user knows it.
  abbrev members : String → User l → Option Members
  members group_name u = elim (lookup group_name u.groups) [
    | some group ↦ some (l.members group.mls_group)
    | none ↦ none
  ]

-- A method whose result the agents do not look at.
abbrev ignored :
    {m : Mls} {t : Timing} {l : Library m t} {A : Type 0} → Method l A → Call (User l) Unit
ignored x u = elim (x u) [
  | returns (u', result) ↦ returns (u', elim result [ ok _ ↦ ok tt | err e ↦ err e ])
  | panics ↦ panics
  | spins ↦ spins
]

-- The user as an agent calls it.
unfoldable pub as_agents_see : {m : Mls} {t : Timing} → Library m t → Rng → ℕ → Agent.User t
as_agents_see {m} l r fuel = record {
  State = User l;
  Info = GroupInfoAndTree m;
  list_of_groups = λ u. group_names l u;
  group_list = λ u. group_names l u;
  members_of_group =
      λ name u. members_of_group l.from_utf8 u.identity.credential u.contacts (members l name u);
  not_members_of_group =
      λ name u. not_members_of_group u.identity.credential u.contacts (members l name u);
  number_of_members = λ name u. number_of_members (members l name u);
  update_clients = update_clients;
  fetch_updates = fetch_updates r fuel;
  is_authorised = λ name policy. is_authorised name policy;
  group_exists = λ name. group_exists name;
  get_group_info = λ name. get_group_info name;
  publish_group_info = λ name. publish_group_info name;
  create_group = λ name. create_group r fuel name;
  external_join = λ name info. ignored (external_join r fuel name info);
  invite = λ user name. ignored (invite r fuel user name);
  remove = λ user name. ignored (remove r fuel user name);
  update_state = λ name. ignored (update_state r fuel name);
  propose = λ action name. propose r fuel action name;
  pending_proposals = λ name. pending_proposals name;
  commit_to_proposals = λ name amount. ignored (commit_to_proposals r fuel name amount);
  send_application_msg = λ msg name. send_application_msg msg name;
}
