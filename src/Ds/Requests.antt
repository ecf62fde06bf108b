-- ===== src/Ds/Requests.antt =====
-- The routes of the server in emulated_client/delivery-service/ds/src/main.rs, and histories of
-- requests. The server's workers serialise on the locks, so a history is a list.
use mls_experimental_analysi.Base.{String, List, [], ◌∷◌}
use mls_experimental_analysi.DsLib.{Mls}
use mls_experimental_analysi.Ds.{DsData, Response, Wire, Payload}
use mls_experimental_analysi.Ds.Handlers.{
  register_client, list_clients, reset, get_key_packages, publish_key_packages, consume_key_package,
  get_group_info, group_exists, post_group_info,
}
use mls_experimental_analysi.Ds.Queues.{send_welcome, msg_send, msg_recv}

pub data Request : Type 0 where
  register_clients : Payload → Request
  lists_clients : Request
  resets : Request
  gets_key_packages : String → Request
  publishes_key_packages : String → Payload → Request
  consumes_key_package : String → Request
  gets_group_info : String → Request
  peeks_group : String → Request
  posts_group_info : String → Payload → Request
  sends_welcome : Payload → Request
  sends_message : Payload → Request
  receives : String → Request

module _ (m : Mls) (w : Wire m) where
  unfoldable pub handle : Request → DsData m → DsData m × Response
  handle (register_clients payload) d = register_client m w payload d
  handle lists_clients d = list_clients m w d
  handle resets d = reset m w d
  handle (gets_key_packages path) d = get_key_packages m w path d
  handle (publishes_key_packages path payload) d = publish_key_packages m w path payload d
  handle (consumes_key_package path) d = consume_key_package m w path d
  handle (gets_group_info path) d = get_group_info m w path d
  handle (peeks_group path) d = group_exists m w path d
  handle (posts_group_info path payload) d = post_group_info m w path payload d
  handle (sends_welcome payload) d = send_welcome m w payload d
  handle (sends_message payload) d = msg_send m w payload d
  handle (receives path) d = msg_recv m w path d

  -- The state after a list of requests.
  unfoldable pub run : List Request → DsData m → DsData m
  unfolding handle
  run [] d = d
  run (request ∷ requests) d = run requests (handle request d).0
