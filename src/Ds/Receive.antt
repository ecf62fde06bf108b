-- ===== src/Ds/Receive.antt =====
-- What a client gets from `msg_recv` of ds/src/main.rs.
use mls_experimental_analysi.Base.{
  String, ◌≡◌, ◌≢◌, none, some, false, List, [], ◌∷◌, ◌++◌, arith, bytes_eq, Bytes, ==_iff, All,
  replicate,
}
use mls_experimental_analysi.Base.Dict.{lookup, lookup-insert}
use mls_experimental_analysi.DsLib.{Mls, ClientInfo, GroupMessage, ProtocolMessage}
use mls_experimental_analysi.Ds.{DsData, Wire, Response, Content, Payload}
use mls_experimental_analysi.Ds.Queues.{msg_recv, msg_send}
use mls_experimental_analysi.Ds.Copies.{Registered, copies, queued}
use mls_experimental_analysi.Ds.Delivery.{Received, Timely, msg_send_lem, msg_send-poisoned}

module _ (m : Mls) (w : Wire m) where
  -- The answer with a list of messages.
  abbrev pub messages : List (GroupMessage m) → Response
  messages out = elim (w.serialize (Content.message_list out)) [
    | some bytes ↦ Response.body bytes
    | none ↦ Response.internal_server_error
  ]

  abbrev pub drained : ClientInfo m → ClientInfo m
  drained c = record c { msgs = []; welcome_queue = [] }

  -- While the lock is sound, a registered client gets its welcome messages and then its other
  -- messages, each in the order of arrival; both queues are empty afterwards, and no other client
  -- is touched.
  pub msg_recv_lem :
      (path : String) (d : DsData m) (id : Bytes) (c : ClientInfo m)
      → d.clients.poisoned ≡ false
      → w.decode_id path ≡ some id
      → lookup id d.clients.content ≡ some c
      → ((msg_recv m w path d).1 ≡ messages (c.welcome_queue ++ c.msgs))
        × (lookup id (msg_recv m w path d).0.clients.content ≡ some (drained c))
        × ((other : Bytes)
            → id ≢ other
            → lookup other (msg_recv m w path d).0.clients.content ≡ lookup other d.clients.content)
  unfolding msg_recv
  msg_recv_lem path d id c sound decoded at = (
    ground arith,
    ground (arith, lookup-insert id id (drained c) d.clients.content, ==_iff id id),
    λ other ne.
        ground (arith, lookup-insert id other (drained c) d.clients.content, ==_iff id other),
  )

  -- The lock on the clients stays as it was.
  msg_recv-poisoned :
      (path : String) (d : DsData m)
      → d.clients.poisoned ≡ false
      → (msg_recv m w path d).0.clients.poisoned ≡ false
  unfolding msg_recv
  msg_recv-poisoned path d sound = ground arith

  -- A message that is received and timely, which a handshake message is if its epoch is later than
  -- the stored one, from a registered sender to registered recipients, reaches every registered
  -- client: the answer to its next `msg_recv` lists what was queued before and then one copy for
  -- each time the client is named, and the answer to the `msg_recv` after that lists nothing.
  pub msg_recv-msg_send :
      (payload : Payload) (d : DsData m) (msg : GroupMessage m) (p : ProtocolMessage)
      (path : String) (id : Bytes) (c : ClientInfo m)
      → Received m w payload d msg p
      → Timely m w d p
      → All (Registered d.clients.content) (msg.recipients ++ msg.sender ∷ [])
      → w.decode_id path ≡ some id
      → lookup id d.clients.content ≡ some c
      → let d' = (msg_send m w payload d).0 in
        ((msg_recv m w path d').1
          ≡ messages (
              c.welcome_queue
              ++ (c.msgs ++ replicate (copies id (msg.recipients ++ msg.sender ∷ [])) msg)))
        × ((msg_recv m w path (msg_recv m w path d').0).1 ≡ messages [])
  msg_recv-msg_send payload d msg p path id c received fresh known decoded at =
      let d' = (msg_send m w payload d).0 in
      let n = copies id (msg.recipients ++ msg.sender ∷ []) in
      let sound = msg_send-poisoned m w payload d msg p received fresh known in
      let (_, each) = msg_send_lem m w payload d msg p received fresh known in
      let (first, after, _) =
        msg_recv_lem path d' id (queued n msg c) sound decoded (each id c at) in
      let (second, _, _) =
        msg_recv_lem path (msg_recv m w path d').0 id (drained (queued n msg c))
          (msg_recv-poisoned path d' sound) decoded after in
      (first, second)
