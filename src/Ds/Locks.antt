-- ===== src/Ds/Locks.antt =====
-- The panic of `msg_send` in ds/src/main.rs on a message that is no `ProtocolMessage`, and what it
-- does to the locks of the delivery service.
use mls_experimental_analysi.Base.{
  String, ◌≡◌, refl, none, some, true, false, List, [], ◌∷◌, arith, bytes_eq, Bytes,
}
use mls_experimental_analysi.DsLib.{Mls, GroupMessage}
use mls_experimental_analysi.Ds.{DsData, Wire, Response, Payload, read_body}
use mls_experimental_analysi.Ds.Handlers.{
  register_client, list_clients, reset, get_key_packages, publish_key_packages, consume_key_package,
  get_group_info, group_exists, post_group_info,
}
use mls_experimental_analysi.Ds.Queues.{send_welcome, msg_send, msg_recv}
use mls_experimental_analysi.Ds.Requests.{Request, handle, run}

module _ (m : Mls) (w : Wire m) where
  -- A handler that needs the lock on the clients, with `reset` among them, keeps it poisoned.
  handle-poisoned :
      (request : Request) (d : DsData m)
      → d.clients.poisoned ≡ true
      → (handle m w request d).0.clients.poisoned ≡ true
  unfolding handle register_client list_clients reset get_key_packages publish_key_packages
      consume_key_package get_group_info group_exists post_group_info send_welcome msg_send msg_recv
  handle-poisoned (Request.register_clients payload) d h = ground arith
  handle-poisoned Request.lists_clients d h = ground arith
  handle-poisoned Request.resets d h = ground arith
  handle-poisoned (Request.gets_key_packages path) d h = ground arith
  handle-poisoned (Request.publishes_key_packages path payload) d h = ground arith
  handle-poisoned (Request.consumes_key_package path) d h = ground arith
  handle-poisoned (Request.gets_group_info path) d h = ground arith
  handle-poisoned (Request.peeks_group path) d h = ground arith
  handle-poisoned (Request.posts_group_info path payload) d h = ground arith
  handle-poisoned (Request.sends_welcome payload) d h = ground arith
  handle-poisoned (Request.sends_message payload) d h = ground arith
  handle-poisoned (Request.receives path) d h = ground arith

  run-poisoned :
      (requests : List Request) (d : DsData m)
      → d.clients.poisoned ≡ true
      → (run m w requests d).clients.poisoned ≡ true
  unfolding run
  run-poisoned [] d h = h
  run-poisoned (request ∷ requests) d h =
      run-poisoned requests (handle m w request d).0 (handle-poisoned request d h)

  -- While the locks are sound, one posted body that decodes to a group message whose content is no
  -- protocol message stops the service: after it, whatever requests are made, `reset` among them,
  -- each `msg_recv`, `reset` and `list_clients` is answered with 500.
  pub msg_send-poisons :
      (payload : Payload) (d : DsData m) (bytes : Bytes) (msg : GroupMessage m)
      (requests : List Request)
      → read_body payload ≡ some bytes
      → w.group_message bytes ≡ some msg
      → m.protocol_message msg.msg ≡ none
      → d.clients.poisoned ≡ false
      → d.groups.poisoned ≡ false
      → let d' = run m w requests (msg_send m w payload d).0 in
        ((path : String) → (msg_recv m w path d').1 ≡ Response.internal_server_error)
        × ((reset m w d').1 ≡ Response.internal_server_error)
        × ((list_clients m w d').1 ≡ Response.internal_server_error)
  unfolding msg_send msg_recv reset list_clients
  msg_send-poisons payload d bytes msg requests read decoded alien sound fine =
      let now : (msg_send m w payload d).0.clients.poisoned ≡ true = ground arith in
      let h = run-poisoned requests (msg_send m w payload d).0 now in
      (λ path. rw h refl, rw h refl, rw h refl)
