-- ===== src/Ds/Delivery.antt =====
-- What `msg_send` of ds/src/main.rs does to the queues of the clients.
use mls_experimental_analysi.Base.{
  ℕ, ◌≤◌, ◌<◌, ◌≡◌, refl, sym, ap, ◌≢◌, true, false, some, [], ◌∷◌, ◌++◌, arith, bytes_eq, Bytes,
  inl, inr, Bool-cases, if◌then◌else◌, All, ◌∙◌, ◌↔◌,
}
use mls_experimental_analysi.Base.Dict.{lookup, insert}
use mls_experimental_analysi.DsLib.{Mls, GroupMessage, ProtocolMessage, ClientInfo}
use mls_experimental_analysi.Ds.{
  DsData, Response, Wire, Payload, read_body, deliver, set_groups, set_clients, Flow, finish, ◌>>=◌,
}
use mls_experimental_analysi.Ds.Queues.{msg_send, pass_epoch, deliver_or_reply}
use mls_experimental_analysi.Ds.Epochs.{pass_epoch_cases}
use mls_experimental_analysi.Ds.Copies.{
  copies, queued, Registered, deliver_lem, All-prefix, deliver-append,
}

-- A message that reaches the point where `msg_send` looks at the epoch: the body and the message in
-- it can be read, and no earlier panic has poisoned a lock.
abbrev pub Received :
    (m : Mls) → Wire m → Payload → DsData m → GroupMessage m → ProtocolMessage → Type 0
Received m w payload d msg p =
    (bytes : Bytes) × (read_body payload ≡ some bytes)
    × (w.group_message bytes ≡ some msg)
    × (m.protocol_message msg.msg ≡ some p)
    × (d.clients.poisoned ≡ false)
    × (d.groups.poisoned ≡ false)

-- The state after `msg_send` stored the epoch.
abbrev stepped : {m : Mls} → DsData m → ProtocolMessage → DsData m
stepped d p =
    if p.is_handshake_message then set_groups d (insert p.group_id p.epoch d.groups.content) else d

later : (a b : ℕ) → a ≤ b → a ≢ b → a < b
later a b le ne = ground arith

module _ (m : Mls) (w : Wire m) where
  msg_send-unfold :
      (payload : Payload) (d : DsData m) (msg : GroupMessage m) (p : ProtocolMessage)
      → Received m w payload d msg p
      → msg_send m w payload d
        ≡ finish (do
          d' ← pass_epoch d d.groups.content p
          clients' ← deliver_or_reply d' msg.recipients msg d.clients.content
          clients'' ← deliver_or_reply d' (msg.sender ∷ []) msg clients'
          Flow.next (set_clients d' clients'', Response.done))
  unfolding msg_send
  msg_send-unfold payload d msg p (bytes, read, decoded, protocol, fine, sound) = ground arith

  -- The two loops of `msg_send` and its answer.
  abbrev deliveries : DsData m → GroupMessage m → Flow m (DsData m × Response)
  deliveries d msg = do
    clients' ← deliver_or_reply d msg.recipients msg d.clients.content
    clients'' ← deliver_or_reply d (msg.sender ∷ []) msg clients'
    Flow.next (set_clients d clients'', Response.done)

  deliveries-response :
      (d : DsData m) (msg : GroupMessage m) → (finish (deliveries d msg)).1 ≢ Response.conflict
  deliveries-response d msg = ground arith

  deliveries_lem :
      (d : DsData m) (msg : GroupMessage m)
      → All (Registered d.clients.content) (msg.recipients ++ msg.sender ∷ [])
      → finish (deliveries d msg) ≡ (
        set_clients d (deliver (msg.recipients ++ msg.sender ∷ []) msg d.clients.content).0,
        Response.done,
      )
  deliveries_lem d msg known =
      let all = msg.recipients ++ msg.sender ∷ [] in
      let first = All-prefix msg.recipients (msg.sender ∷ []) d.clients.content known in
      ground (
        arith,
        deliver_lem msg.recipients msg d.clients.content first,
        deliver_lem all msg d.clients.content known,
        deliver-append msg.recipients (msg.sender ∷ []) msg d.clients.content first,
      )

  -- A handshake message of a later epoch than the stored one, or any other message.
  abbrev pub Timely : DsData m → ProtocolMessage → Type 0
  Timely d p =
      p.is_handshake_message ≡ true
      → (e : ℕ) → lookup p.group_id d.groups.content ≡ some e
      → e < p.epoch

  msg_send-accepted :
      (payload : Payload) (d : DsData m) (msg : GroupMessage m) (p : ProtocolMessage)
      → Received m w payload d msg p
      → Timely d p
      → msg_send m w payload d ≡ finish (deliveries (stepped d p) msg)
  msg_send-accepted payload d msg p received fresh =
      msg_send-unfold payload d msg p received ∙ (elim (pass_epoch_cases m d p) [
        | inl (plain, e) ↦ rw (e, plain) refl
        | inr (inl (is, e, at, late, same)) ↦ absurd (omega (arith, fresh is e at))
        | inr (inr (is, above, e)) ↦ rw (e, is) refl
      ])

  pub msg_send-late :
      (payload : Payload) (d : DsData m) (msg : GroupMessage m) (p : ProtocolMessage) (e : ℕ)
      → Received m w payload d msg p
      → p.is_handshake_message ≡ true
      → lookup p.group_id d.groups.content ≡ some e
      → p.epoch < e
      → msg_send m w payload d ≡ (set_groups d d.groups.content, Response.conflict)
  msg_send-late payload d msg p e received is at late =
      msg_send-unfold payload d msg p received ∙ (elim (pass_epoch_cases m d p) [
        | inl (plain, same) ↦ ground arith
        | inr (inl (is', e', at', late', same)) ↦ rw same refl
        | inr (inr (is', above, same)) ↦ absurd (omega (arith, above e at))
      ])

  -- A received message that is no handshake message of the very epoch that is stored for its group
  -- is refused with 409 exactly when it is a handshake message and the service holds a later epoch
  -- for its group than the message's.
  pub msg_send-conflict :
      (payload : Payload) (d : DsData m) (msg : GroupMessage m) (p : ProtocolMessage)
      → Received m w payload d msg p
      → (p.is_handshake_message ≡ true → lookup p.group_id d.groups.content ≢ some p.epoch)
      → ((msg_send m w payload d).1 ≡ Response.conflict) ↔ (
          (p.is_handshake_message ≡ true)
          × (e : ℕ) × (lookup p.group_id d.groups.content ≡ some e)
          × (p.epoch < e))
  msg_send-conflict payload d msg p received other =
      let accepted : Timely d p → (msg_send m w payload d).1 ≢ Response.conflict = λ fresh h.
        deliveries-response (stepped d p) msg
          (sym (ap (λ q. q.1) (msg_send-accepted payload d msg p received fresh)) ∙ h) in
      (
        λ h. elim (pass_epoch_cases m d p) [
          | inl (plain, _) ↦ absurd (accepted (λ is. ground arith) h)
          | inr (inl (is, e, at, late, _)) ↦ (is, e, at, late)
          | inr (inr (is, above, _)) ↦ absurd (
              accepted
                (λ _ e at. later e p.epoch (above e at) (λ same. other is (at ∙ ap some same))) h)
        ],
        λ (is, e, at, late). ap (λ q. q.1) (msg_send-late payload d msg p e received is at late),
      )

  -- A message that is received, and is no handshake message or one of a later epoch than the stored
  -- one, from a registered sender to registered recipients, is answered with 200, and the queue of
  -- every registered client is extended by one copy for each time the client is named, as a
  -- recipient or as the sender.
  pub msg_send_lem :
      (payload : Payload) (d : DsData m) (msg : GroupMessage m) (p : ProtocolMessage)
      → Received m w payload d msg p
      → Timely d p
      → All (Registered d.clients.content) (msg.recipients ++ msg.sender ∷ [])
      → ((msg_send m w payload d).1 ≡ Response.done)
        × ((id : Bytes) (c : ClientInfo m)
            → lookup id d.clients.content ≡ some c
            → lookup id (msg_send m w payload d).0.clients.content
              ≡ some (queued (copies id (msg.recipients ++ msg.sender ∷ [])) msg c))
  msg_send_lem payload d msg p received fresh known =
      let all = msg.recipients ++ msg.sender ∷ [] in
      let each = (deliver_lem all msg d.clients.content known).1 in
      rw (msg_send-accepted payload d msg p received fresh)
        (elim (Bool-cases p.is_handshake_message) [
          | inl is ↦
              rw
                (
                  is,
                  deliveries_lem (set_groups d (insert p.group_id p.epoch d.groups.content)) msg
                      known,
                )
                (refl, each)
          | inr plain ↦ rw (plain, deliveries_lem d msg known) (refl, each)
        ])

  -- Such a message leaves the lock on the clients sound.
  pub msg_send-poisoned :
      (payload : Payload) (d : DsData m) (msg : GroupMessage m) (p : ProtocolMessage)
      → Received m w payload d msg p
      → Timely d p
      → All (Registered d.clients.content) (msg.recipients ++ msg.sender ∷ [])
      → (msg_send m w payload d).0.clients.poisoned ≡ false
  msg_send-poisoned payload d msg p received fresh known =
      rw (msg_send-accepted payload d msg p received fresh)
        (elim (Bool-cases p.is_handshake_message) [
          | inl is ↦
              rw
                (
                  is,
                  deliveries_lem (set_groups d (insert p.group_id p.epoch d.groups.content)) msg
                      known,
                )
                refl
          | inr plain ↦ rw (plain, deliveries_lem d msg known) refl
        ])
