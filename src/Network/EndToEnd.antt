-- ===== src/Network/EndToEnd.antt =====
-- What the calls of network/backend.rs do when they reach the service of ds/src/main.rs.
use mls_experimental_analysi.Base.{
  ℕ, append, Bytes, bytes_eq, true, false, List, [], ◌∷◌, ◌++◌, none, some, ◌≡◌, ◌≢◌, refl, ap, ◌∙◌,
  ◌<◌, All, replicate, returns, ok, err,
}
use mls_experimental_analysi.Base.Dict.{lookup}
use mls_experimental_analysi.DsLib.{Mls, ClientInfo, GroupMessage, ProtocolMessage}
use mls_experimental_analysi.DsLib.Codec.{Tls, write_message, message_codec}
use mls_experimental_analysi.DsLib.RoundTrips.{TlsLaws, message-RoundTrips}
use mls_experimental_analysi.DsLib.Sizes.{SizeLaws, message-IsSized}
use mls_experimental_analysi.Ds.{DsData, Response, set_groups}
use mls_experimental_analysi.Ds.Requests.{Request, handle}
use mls_experimental_analysi.Ds.Queues.{msg_send, msg_recv}
use mls_experimental_analysi.Ds.Copies.{Registered, copies}
use mls_experimental_analysi.Ds.Delivery.{Received, Timely, msg_send_lem, msg_send-late}
use mls_experimental_analysi.Ds.Receive.{messages, msg_recv-msg_send}
use mls_experimental_analysi.Network.{Web, pure, decoded, body_of, get, post}
use mls_experimental_analysi.Network.Backend.{send_msg, recv_msgs}
use mls_experimental_analysi.Network.Service.{Site, SiteLaws, wire, service, value}
use mls_experimental_analysi.Network.Handled.{
  bind-ok, bind-err, read-write, answer, get-handled, post-handled,
}

module _ {m : Mls} (tls : Tls m) (laws : TlsLaws tls) {w : Web} (site : Site w)
    (site_laws : SiteLaws site) where
  -- What a client has waiting, and then the copies of the message that it is to get.
  abbrev pub queue_of : Bytes → ClientInfo m → GroupMessage m → List (GroupMessage m)
  queue_of id c msg =
      c.welcome_queue ++ (c.msgs ++ replicate (copies id (msg.recipients ++ msg.sender ∷ [])) msg)

  -- A group message as the service receives it.
  Received-message :
      (d : DsData m) (msg : GroupMessage m) (p : ProtocolMessage) (out : Bytes)
      → write_message tls msg ≡ some out
      → m.protocol_message msg.msg ≡ some p
      → d.clients.poisoned ≡ false
      → d.groups.poisoned ≡ false
      → Received m (wire tls site) (site.chunks out) d msg p
  Received-message d msg p out written protocol clients groups = (
    out,
    site_laws.read_body-chunks out,
    ap value (read-write (message_codec tls) (message-RoundTrips tls laws) msg out written),
    protocol,
    clients,
    groups,
  )

  send_msg-answer :
      (d : DsData m) (msg : GroupMessage m) (out : Bytes)
      → write_message tls msg ≡ some out
      → post (service tls site) (message_codec tls) (w.set_path "/send/message" site.base) msg d
        ≡ answer tls site (Request.sends_message (site.chunks out)) d
  send_msg-answer d msg out written =
      post-handled tls site (message_codec tls) _ msg out _ d written (site_laws.send_message out)

  send_msg-done :
      (d : DsData m) (msg : GroupMessage m) (out : Bytes)
      → write_message tls msg ≡ some out
      → (msg_send m (wire tls site) (site.chunks out) d).1 ≡ Response.done
      → send_msg tls (service tls site) site.base msg d
        ≡ returns ((msg_send m (wire tls site) (site.chunks out) d).0, ok tt)
  unfolding send_msg handle body_of
  send_msg-done d msg out written answered =
      bind-ok
        (post (service tls site) (message_codec tls) (w.set_path "/send/message" site.base) msg)
        (λ _. pure tt) d (msg_send m (wire tls site) (site.chunks out) d).0 []
        (send_msg-answer d msg out written ∙ rw answered refl)

  messages-body :
      (msgs : List (GroupMessage m)) (out : Bytes)
      → (tls.vec_u32 (GroupMessage m) (message_codec tls)).write msgs ≡ some out
      → messages m (wire tls site) msgs ≡ Response.body out
  messages-body msgs out written =
      ap
        (λ o.
          let r : Response = elim o [
            | some bytes ↦ Response.body bytes
            | none ↦ Response.internal_server_error
          ] in
          r)
        written

  recv_msgs-listed :
      (sizes : SizeLaws tls) (d : DsData m) (id : Bytes) (msgs : List (GroupMessage m))
      (out : Bytes)
      → id ≢ []
      → (msg_recv m (wire tls site) (w.encode id) d).1 ≡ messages m (wire tls site) msgs
      → (tls.vec_u32 (GroupMessage m) (message_codec tls)).write msgs ≡ some out
      → recv_msgs tls (service tls site) site.base id d
        ≡ returns ((msg_recv m (wire tls site) (w.encode id) d).0, ok msgs)
  unfolding recv_msgs handle body_of
  recv_msgs-listed sizes d id msgs out named answered written =
      bind-ok (get (service tls site) (w.set_path (append "/recv/" (w.encode id)) site.base))
        (λ response.
          decoded "Invalid message list"
            ((tls.vec_u32 (GroupMessage m) (message_codec tls)).read response))
        d (msg_recv m (wire tls site) (w.encode id) d).0 out
        (get-handled tls site _ _ d (site_laws.recv id named)
          ∙ rw (answered ∙ messages-body msgs out written) refl)
      ∙ rw
          (
            decoded,
            read-write (tls.vec_u32 (GroupMessage m) (message_codec tls))
                (laws.vec_u32 (GroupMessage m) (message_codec tls) (message-RoundTrips tls laws)
                  (message-IsSized tls sizes))
                msgs out written,
          )
          refl

  -- Under the laws of the codecs and of the server, a timely message that the client's `send_msg`
  -- can write, from a registered sender to registered recipients, reaches each registered client
  -- with an identity that is not empty through `recv_msgs`: while the locks are sound and the lists
  -- can be written, the call returns what was queued for the client and then one copy for each time
  -- the message names it, and the next call returns nothing.
  pub delivered :
      (sizes : SizeLaws tls) (d : DsData m) (msg : GroupMessage m) (p : ProtocolMessage)
      (id : Bytes) (c : ClientInfo m) (out listed empty : Bytes)
      → id ≢ []
      → m.protocol_message msg.msg ≡ some p
      → d.clients.poisoned ≡ false
      → d.groups.poisoned ≡ false
      → Timely m (wire tls site) d p
      → All (Registered d.clients.content) (msg.recipients ++ msg.sender ∷ [])
      → lookup id d.clients.content ≡ some c
      → write_message tls msg ≡ some out
      → (tls.vec_u32 (GroupMessage m) (message_codec tls)).write (queue_of id c msg) ≡ some listed
      → (tls.vec_u32 (GroupMessage m) (message_codec tls)).write [] ≡ some empty
      → (sent received emptied : DsData m) × (send_msg tls (service tls site) site.base msg d
          ≡ returns (sent, ok tt))
        × (recv_msgs tls (service tls site) site.base id sent
            ≡ returns (received, ok (queue_of id c msg)))
        × (recv_msgs tls (service tls site) site.base id received ≡ returns (emptied, ok []))
  delivered sizes d msg p id c out listed empty named protocol clients groups timely known at
        written some_out no_out =
      let receives = Received-message d msg p out written protocol clients groups in
      let (sent, _) =
        msg_send_lem m (wire tls site) (site.chunks out) d msg p receives timely known in
      let (first, second) =
        msg_recv-msg_send m (wire tls site) (site.chunks out) d msg p (w.encode id) id c receives
          timely known (site_laws.decode_id-encode id) at in
      (
        _,
        _,
        _,
        send_msg-done d msg out written sent,
        recv_msgs-listed sizes _ id _ listed named first some_out,
        recv_msgs-listed sizes _ id [] empty named second no_out,
      )

  -- Under the laws of the codecs and of the server, while the locks are sound, `send_msg` of a
  -- handshake message whose epoch is before the stored one returns the error for the status 409 and
  -- leaves the service's clients and epochs as they were.
  pub send_msg-refused :
      (d : DsData m) (msg : GroupMessage m) (p : ProtocolMessage) (e : ℕ) (out : Bytes)
      → m.protocol_message msg.msg ≡ some p
      → d.clients.poisoned ≡ false
      → d.groups.poisoned ≡ false
      → p.is_handshake_message ≡ true
      → lookup p.group_id d.groups.content ≡ some e
      → p.epoch < e
      → write_message tls msg ≡ some out
      → (d' : DsData m) × (send_msg tls (service tls site) site.base msg d
          ≡ returns (d', err (append "Error status code " (w.status_text 409))))
        × (d'.clients.content ≡ d.clients.content)
        × (d'.groups.content ≡ d.groups.content)
  unfolding send_msg handle body_of
  send_msg-refused d msg p e out protocol clients groups handshake at late written =
      let answered =
        msg_send-late m (wire tls site) (site.chunks out) d msg p e
          (Received-message d msg p out written protocol clients groups) handshake at late in
      (
        set_groups d d.groups.content,
        bind-err
            (post (service tls site) (message_codec tls) (w.set_path "/send/message" site.base) msg)
            (λ _. pure tt) d (set_groups d d.groups.content)
            (append "Error status code " (w.status_text 409))
            (send_msg-answer d msg out written ∙ rw answered refl),
        refl,
        refl,
      )
