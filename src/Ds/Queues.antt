-- ===== src/Ds/Queues.antt =====
-- The handlers of emulated_client/delivery-service/ds/src/main.rs that store and hand out messages.
use mls_experimental_analysi.Base.{
  ℕ, String, true, none, some, List, [], ◌∷◌, ◌++◌, if◌then◌else◌, bytes_eq, Bytes,
}
use mls_experimental_analysi.Base.Dict.{Dict, lookup, insert}
use mls_experimental_analysi.DsLib.{Mls, ClientInfo, GroupMessage, ProtocolMessage}
use mls_experimental_analysi.Ds.{
  DsData, Content, Response, Wire, Payload, read_body, Flow, or_reply, lock, set_clients,
  set_groups, ◌>>=◌, finish, offer_all, deliver, EpochUpdate, update_epoch,
}

-- The state after a panic while the locks on the clients and on the epochs are held.
abbrev pub poison : {m : Mls} → DsData m → DsData m
poison d = record d {
  clients = record { poisoned = true; content = d.clients.content };
  groups = record { poisoned = true; content = d.groups.content };
}

-- The test of a handshake message's epoch: 409 if the group has moved on.
abbrev pub pass_epoch : {m : Mls} → DsData m → Dict Bytes ℕ → ProtocolMessage → Flow m (DsData m)
pass_epoch d groups protocol_msg =
    if protocol_msg.is_handshake_message
    then (elim (update_epoch groups protocol_msg.group_id protocol_msg.epoch) [
      | EpochUpdate.accepted groups' ↦ Flow.next (set_groups d groups')
      | EpochUpdate.stale groups' ↦ Flow.reply (set_groups d groups') Response.conflict
      | EpochUpdate.broken groups' ↦
          Flow.reply (set_groups d groups') Response.internal_server_error
    ])
    else Flow.next d

-- One loop of `deliver`, and 404 if it met an unknown client.
abbrev pub deliver_or_reply :
    {m : Mls}
    → DsData m
    → List Bytes
    → GroupMessage m
    → Dict Bytes (ClientInfo m)
    → Flow m (Dict Bytes (ClientInfo m))
deliver_or_reply d recipients group_msg clients =
    let (clients', all_known) = deliver recipients group_msg clients in
    if all_known then Flow.next clients' else Flow.reply (set_clients d clients') Response.not_found

module _ (m : Mls) (w : Wire m) where
  unfoldable pub send_welcome : Payload → DsData m → DsData m × Response
  send_welcome payload d = finish (do
    bytes ← or_reply (read_body payload) d Response.partial_content
    welcome_msg ← or_reply (w.group_message bytes) d Response.internal_server_error
    secrets ← or_reply (m.welcome_secrets welcome_msg.msg) d Response.crashed
    clients ← lock d.clients d
    clients' ← or_reply (offer_all secrets welcome_msg clients) d Response.no_content
    Flow.next (set_clients d clients', Response.done))

  -- The message as a `ProtocolMessage` is unwrapped while both locks are held.
  unfoldable pub msg_send : Payload → DsData m → DsData m × Response
  msg_send payload d = finish (do
    bytes ← or_reply (read_body payload) d Response.partial_content
    group_msg ← or_reply (w.group_message bytes) d Response.internal_server_error
    clients ← lock d.clients d
    groups ← lock d.groups d
    protocol_msg ← or_reply (m.protocol_message group_msg.msg) (poison d) Response.crashed
    d' ← pass_epoch d groups protocol_msg
    clients' ← deliver_or_reply d' group_msg.recipients group_msg clients
    clients'' ← deliver_or_reply d' (group_msg.sender ∷ []) group_msg clients'
    Flow.next (set_clients d' clients'', Response.done))

  -- The welcome messages and then the others; both queues are emptied first.
  unfoldable pub msg_recv : String → DsData m → DsData m × Response
  msg_recv path d = finish (do
    clients ← lock d.clients d
    id ← or_reply (w.decode_id path) d Response.bad_request
    client ← or_reply (lookup id clients) d Response.not_found
    let drained =
        set_clients d (insert id (record client { msgs = []; welcome_queue = [] }) clients)
    elim (w.serialize (Content.message_list (client.welcome_queue ++ client.msgs))) [
      | some out ↦ Flow.next (drained, Response.body out)
      | none ↦ Flow.reply drained Response.internal_server_error
    ])
