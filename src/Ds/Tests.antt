-- ===== src/Ds/Tests.antt =====
-- The delivery service on a small instance: two clients, and messages and encodings of a few bytes.
use mls_experimental_analysi.Base.{
  ℕ, zero, suc, ◌<◌, String, ◌≡◌, refl, sym, ap, subst, ◌↔◌, true, false, Option, none, some, List,
  [], ◌∷◌, arith, map, Bytes, bytes_eq, if◌then◌else◌, ◌==◌, string_eq,
}
use mls_experimental_analysi.Base.Dict.{lookup}
use mls_experimental_analysi.DsLib.{Mls, ProtocolMessage, GroupMessage, ClientInfo}
use mls_experimental_analysi.Ds.{DsData, Wire, Response, Content, Payload, read_body}
use mls_experimental_analysi.Ds.Handlers.{register_client, get_group_info, reset, list_clients}
use mls_experimental_analysi.Ds.Queues.{msg_send, msg_recv, send_welcome}
use mls_experimental_analysi.Ds.Requests.{Request, run}
use mls_experimental_analysi.Ds.Epochs.{NotBefore, run-NotBefore}
use mls_experimental_analysi.Ds.Copies.{copies, queued}
use mls_experimental_analysi.Ds.Delivery.{msg_send-conflict, msg_send_lem, Received}
use mls_experimental_analysi.Ds.Receive.{msg_recv-msg_send}
use mls_experimental_analysi.Ds.KeyPackages.{newcomer, register_client-replaces}
use mls_experimental_analysi.Ds.GroupInfos.{Between, get_group_info-exclusive}
use mls_experimental_analysi.Ds.Locks.{msg_send-poisons}
use mls_experimental_analysi.Ds.Welcomes.{send_welcome-others}

data TestMessage : Type 0 where
  welcome : List Bytes → TestMessage
  handshake : ℕ → TestMessage

abbrev mls : Mls
mls = record {
  KeyPackage = Bytes;
  Message = TestMessage;
  RatchetTree = ℕ;
  GroupInfo = ℕ;
  identity = λ id. id;
  welcome_secrets = λ msg. elim msg [ welcome hashes ↦ some hashes | handshake epoch ↦ none ];
  protocol_message = λ msg. elim msg [
    | welcome hashes ↦ none
    | handshake epoch ↦
        some (record { is_handshake_message = true; epoch = epoch; group_id = 9 ∷ [] })
  ];
}

abbrev alice : Bytes
alice = 1 ∷ []

abbrev bob : Bytes
bob = 2 ∷ []

-- Alice sends to Bob.
abbrev mail : TestMessage → GroupMessage mls
mail msg = record {
  msg = msg;
  sender = alice;
  ratchet_tree = none;
  recipients = bob ∷ [];
  active_members = none;
}

abbrev decode_mail : Bytes → Option (GroupMessage mls)
decode_mail [] = none
decode_mail (zero ∷ hash) = some (mail (welcome (hash ∷ [])))
decode_mail (suc epoch ∷ rest) = some (mail (handshake epoch))

abbrev wire : Wire mls
wire = record {
  decode_id = λ path. some (if path == "bob" then bob else alice);
  client_info = λ bytes. some ("client", (bytes, bytes) ∷ []);
  client_key_packages = λ bytes. some ((bytes, bytes) ∷ []);
  group_info = λ bytes. some (record { group_info = 5; ratchet_tree = none });
  group_message = decode_mail;
  serialize = λ content. elim content [
    | Content.client_list clients ↦ some []
    | Content.key_package_list kps ↦ some []
    | Content.key_package kp ↦ some kp
    | Content.group_info_and_tree info ↦ some (info.group_info ∷ [])
    | Content.message_list msgs ↦ some (map (λ msg. 7) msgs)
  ];
}

abbrev client : Bytes → ClientInfo mls
client id = record {
  client_name = "client";
  key_packages = (3 ∷ [], id) ∷ (4 ∷ [], id) ∷ [];
  reserved_key_pkg_hash = [];
  id = id;
  msgs = [];
  welcome_queue = [];
}

-- Both are registered, group 9 is in epoch 4, and its group info was posted.
abbrev start : DsData mls
start = record {
  clients = record { poisoned = false; content = (alice, client alice) ∷ (bob, client bob) ∷ [] };
  group_info_mutex = true;
  groups = record { poisoned = false; content = (9 ∷ [], 4) ∷ [] };
  group_info = record {
    poisoned = false;
    content =
        (9 ∷ [], some (record { group_info = 5; ratchet_tree = none }))
        ∷ (bob, some (record { group_info = 6; ratchet_tree = none }))
        ∷ [];
  };
}

abbrev body : ℕ → Payload
body n = some (n ∷ []) ∷ []

abbrev protocol : ℕ → ProtocolMessage
protocol epoch = record { is_handshake_message = true; epoch = epoch; group_id = 9 ∷ [] }

-- `body (suc epoch)` is a handshake message of the epoch.
received :
    (epoch : ℕ)
    → Received mls wire (body (suc epoch)) start (mail (handshake epoch)) (protocol epoch)
unfolding read_body
received epoch = (suc epoch ∷ [], refl, refl, refl, refl, refl)

stored_epoch : (e : ℕ) → lookup (9 ∷ []) start.groups.content ≡ some e → e ≡ 4
unfolding lookup
stored_epoch e h = ground arith

abbrev posted_path : Request → String
posted_path (Request.posts_group_info path payload) = path
posted_path _ = ""

run-NotBefore_example :
    NotBefore start.groups.content
      (run mls wire
        (Request.sends_message (body 8)
          ∷ Request.receives "bob"
          ∷ Request.sends_message (body 2)
          ∷ [])
        start).groups.content
run-NotBefore_example =
    run-NotBefore mls wire
      (Request.sends_message (body 8)
        ∷ Request.receives "bob"
        ∷ Request.sends_message (body 2)
        ∷ [])
      start ((λ e. ground arith), ((λ e. ground arith), ((λ e. ground arith), tt)))

msg_send-conflict_example :
    ((msg_send mls wire (body 4) start).1 ≡ Response.conflict)
    ↔ ((true ≡ true) × (e : ℕ) × (lookup (9 ∷ []) start.groups.content ≡ some e) × (3 < e))
msg_send-conflict_example =
    msg_send-conflict mls wire (body 4) start (mail (handshake 3)) (protocol 3) (received 3)
      (λ _ e. omega (arith, stored_epoch 3 e))

msg_send_lem_example :
    ((msg_send mls wire (body 6) start).1 ≡ Response.done)
    × ((id : Bytes) (c : ClientInfo mls)
        → lookup id start.clients.content ≡ some c
        → lookup id (msg_send mls wire (body 6) start).0.clients.content
          ≡ some (queued (copies id (bob ∷ alice ∷ [])) (mail (handshake 5)) c))
unfolding lookup
msg_send_lem_example =
    msg_send_lem mls wire (body 6) start (mail (handshake 5)) (protocol 5) (received 5)
      (λ _ e at. omega (arith, stored_epoch e at)) ((client bob, refl), ((client alice, refl), tt))

msg_recv-msg_send_example :
    let d' = (msg_send mls wire (body 6) start).0 in
    ((msg_recv mls wire "bob" d').1 ≡ Response.body (7 ∷ []))
    × ((msg_recv mls wire "bob" (msg_recv mls wire "bob" d').0).1 ≡ Response.body [])
unfolding lookup
msg_recv-msg_send_example =
    msg_recv-msg_send mls wire (body 6) start (mail (handshake 5)) (protocol 5) "bob" bob
      (client bob) (received 5) (λ _ e at. omega (arith, stored_epoch e at))
      ((client bob, refl), ((client alice, refl), tt)) refl refl

register_client-replaces_example :
    (lookup bob (register_client mls wire (body 2) start).0.clients.content
      ≡ some (newcomer mls wire "client" bob ((bob, bob) ∷ [])))
    × (((register_client mls wire (body 2) start).1 ≡ Response.conflict)
        ↔ ((c : ClientInfo mls) × (lookup bob start.clients.content ≡ some c)))
unfolding read_body
register_client-replaces_example =
    register_client-replaces mls wire (body 2) start bob "client" (bob, bob) [] refl refl refl

posted_alice : Between mls wire bob (Request.posts_group_info "alice" (body 1))
posted_alice = (
  λ e. ground arith,
  λ path payload e h.
      let alice_path : path ≡ "alice" = sym (ap posted_path e) in
      let decoded : some alice ≡ some bob = subst (λ p. wire.decode_id p ≡ some bob) alice_path h in
      ground arith,
)

get_group_info-exclusive_example :
    (get_group_info mls wire "bob" (
      run mls wire
        (Request.lists_clients ∷ Request.posts_group_info "alice" (body 1) ∷ [])
        (get_group_info mls wire "bob" start).0)).1
    ≡ Response.forbidden
unfolding get_group_info lookup
get_group_info-exclusive_example =
    get_group_info-exclusive mls wire "bob" start bob (6 ∷ [])
      (Request.lists_clients ∷ Request.posts_group_info "alice" (body 1) ∷ []) refl refl refl
      (((λ e. ground arith), (λ path payload e. ground arith)), (posted_alice, tt))

msg_send-poisons_example :
    let d' = run mls wire (Request.resets ∷ []) (msg_send mls wire (body 0) start).0 in
    ((path : String) → (msg_recv mls wire path d').1 ≡ Response.internal_server_error)
    × ((reset mls wire d').1 ≡ Response.internal_server_error)
    × ((list_clients mls wire d').1 ≡ Response.internal_server_error)
unfolding read_body
msg_send-poisons_example =
    msg_send-poisons mls wire (body 0) start (0 ∷ []) (mail (welcome ([] ∷ [])))
      (Request.resets ∷ []) refl refl refl refl refl

send_welcome-others_example :
    lookup bob (send_welcome mls wire (body 0) start).0.clients.content ≡ some (client bob)
unfolding lookup read_body
send_welcome-others_example =
    send_welcome-others mls wire (body 0) start (mail (welcome ([] ∷ []))) ([] ∷ []) bob
      (client bob) (0 ∷ []) refl refl refl refl (refl, tt)
