-- ===== src/User/Sample.antt =====
-- A small user of emulated_client/src/user.rs: names of one byte, messages that are the epochs of
-- commits, a group that is its epoch, and connections that accept everything.
use mls_experimental_analysi.Base.{
  ℕ, suc, String, string_eq, Bytes, bytes_eq, true, false, Bool, none, some, List, [], ◌∷◌, ◌++◌,
  arith, if◌then◌else◌, ◌==◌, nat_eq, Outcome, returns, Result, ok,
}
use mls_experimental_analysi.Base.Dict.{Dict}
use mls_experimental_analysi.Rng.{Rng}
use mls_experimental_analysi.DsLib.{Mls, GroupMessage}
use mls_experimental_analysi.Agent.{Timing, CgkaAction}
use mls_experimental_analysi.User.{
  Library, User, KeyDirectory, Group, AgentType, DeliveryService, ContentType, Processed, Receipt,
  Body, PendingCommit, Proposal,
}

abbrev pub mls : Mls
mls = record {
  KeyPackage = ℕ;
  Message = ℕ;
  RatchetTree = ℕ;
  GroupInfo = ℕ;
  identity = λ kp. [];
  welcome_secrets = λ msg. none;
  protocol_message = λ msg. none;
}

abbrev pub timing : Timing
timing = record { CryptoTime = ℕ; ProcessCryptoTime = ℕ; MergeTime = ℕ }

abbrev pub rng : Rng
rng = record {
  State = ℕ;
  from_seed = λ seed. 0;
  draw = λ s lo hi. (lo, s);
  draw_bounds = λ s lo hi h. (omega arith, h);
}

abbrev pub alice : Bytes
alice = 1 ∷ []

abbrev pub bob : Bytes
bob = 2 ∷ []

abbrev pub club : Bytes
club = 9 ∷ []

-- The environment is the log.
abbrev pub accepts : {A : Type 0} → A → List String → Outcome (List String × Result A)
accepts a env = returns (env, ok a)

abbrev pub directory : KeyDirectory mls (List String)
directory = record {
  publish_key_package = λ id kp. accepts tt;
  consume_key_package = λ contact. accepts 5;
  group_exists = λ name. accepts true;
  group_info = λ name. accepts (record { group_info = 6; ratchet_tree = none });
  publish_group_info = λ name info. accepts tt;
}

abbrev pub library : Library mls timing
library = record {
  Env = List String;
  MlsGroup = ℕ;
  Protocol = ℕ;
  Welcome = ℕ;
  StagedWelcome = ℕ;
  Staged = ℕ;
  Queued = ℕ;
  as_bytes = λ name. if name == "alice" then alice else if name == "bob" then bob else club;
  from_utf8 = λ bytes.
      if bytes == alice
      then some "alice"
      else if bytes == bob
      then some "bob"
      else if bytes == club
      then some "club"
      else none;
  extract = λ msg. Body.private_message msg;
  into_protocol_message = λ msg. some msg;
  message_group_id = λ msg. club;
  message_epoch = λ msg. msg;
  content_type = λ msg. ContentType.commit;
  serialized_len = λ msg. 100;
  tree_len = λ tree. 0;
  info_len = λ info. 10;
  new_members = λ welcome. [];
  epoch = λ group. group;
  group_id = λ group. club;
  members = λ group. (0, alice) ∷ (1, bob) ∷ [];
  own_leaf_index = λ group. 0;
  transcript_hash = λ group. [];
  export_ratchet_tree = λ group. 0;
  pending_proposals = λ group. [];
  queued_proposal = λ queued. Proposal.update;
  remove_pending_proposal = λ queued group env. (env, group, ok tt);
  store_pending_proposal = λ queued group env. (env, group, ok tt);
  set_aad = λ aad group. group;
  create = λ name identity env. (env, some 0);
  stage_welcome = λ welcome tree env. (env, ok welcome);
  into_group = λ staged env. (env, ok staged);
  join_by_external_commit = λ name identity info env. (env, some (0, 0, none));
  export_group_info = λ identity group env. (env, ok 6);
  process_message =
      λ msg group env. (env, group, Receipt.accepted bob (Processed.staged_commit msg));
  add_names = λ staged. [];
  removed = λ staged. [];
  staged_hash = λ staged. [];
  self_removed = λ staged. false;
  merge_staged_commit = λ staged group env. (env, suc staged, ok tt);
  merge_pending_commit = λ group env. (env, suc group, ok tt);
  create_message = λ text group env. (env, group, ok group);
  add_members = λ kp group env. (env, group, ok (group, group, none));
  self_update = λ group env. (env, group, ok (group, none, none));
  remove_members = λ index group env. (env, group, ok (group, none, none));
  commit_to_pending_proposals = λ group env. (env, group, ok (group, none, none));
  propose = λ proposal group env. (env, group, ok group);
  build_key_package = λ identity env. (env, 5);
  hash_ref = λ kp. kp ∷ [];
  timestamp = λ env. (env, 7);
  elapsed = λ env. (env, 3);
  commit_times = λ env. (env, (1, 1));
  process_times = λ env. (env, (1, 1));
  merge_total = λ env. (env, 2);
  coin = λ env. (env, false);
  choose_multiple = λ n queued env. (env, []);
  backend = directory;
  kademlia = directory;
  register_client = λ name identity. accepts tt;
  list_clients =
      accepts
        (record { username = "bob"; id = bob } ∷ record { username = "alice"; id = alice } ∷ []);
  recv_msgs = λ id. accepts [];
  post_message = λ msg. accepts tt;
  post_welcome = λ msg. accepts tt;
  broker_send_msg = λ msg name. accepts tt;
  broker_send_welcome = λ msg name. accepts tt;
  broker_send_ack = λ ack. accepts tt;
  broker_subscribe = λ name. accepts tt;
  broker_unsubscribe = λ name. accepts tt;
  broker_subscribe_welcome = λ name. accepts tt;
  send_to_agent = λ name. accepts tt;
  format = record {
    number = λ n. "1";
    crypto_time = λ x. "";
    process_crypto_time = λ x. "";
    merge_time = λ x. "";
  };
  append_file = λ text env. returns (env ++ text ∷ []);
}

-- The update that Alice sent in the epoch 3.
abbrev pub update : PendingCommit library
update = record {
  group_info = none;
  stored_welcome = none;
  action_record = record {
    group_name = "club";
    action = CgkaAction.update 100;
    epoch_change = record { timestamp = 7; epoch = 3 };
    elapsed_time = 3;
    num_users = 2;
  };
}

abbrev pub club_group : Group library
club_group = record { group_name = "club"; conversation = record { messages = [] }; mls_group = 3 }

-- Alice, who can commit in the club or cannot, with or without an update on its way.
abbrev pub member : Bool → Dict String (PendingCommit library) → User library
member active pending = record {
  username = "alice";
  contacts = [];
  groups = ("club", club_group) ∷ [];
  group_list = [];
  identity = record { kp = []; credential = alice };
  pending_commits = pending;
  ds = DeliveryService.pub_sub_mqtt;
  active = ("club", (active, 0)) ∷ [];
  agent_type = AgentType.independent;
  file_buffer = [];
  env = [];
}

abbrev pub waiting : User library
waiting = member true (("club", update) ∷ [])

abbrev pub from : Bytes → ℕ → GroupMessage mls
from sender epoch = record {
  msg = epoch;
  sender = sender;
  ratchet_tree = none;
  recipients = [];
  active_members = none;
}
