-- ===== src/Ds/GroupInfos.antt =====
-- The group info mutex of ds/src/main.rs: `get_group_info` takes the group info away, and
-- `post_group_info` puts one back.
use mls_experimental_analysi.Base.{
  String, ◌≡◌, refl, ◌≢◌, none, some, true, false, List, [], ◌∷◌, arith, bytes_eq, Bytes, ==_iff,
  All, Option-cases, inl, inr, ap, ◌∙◌,
}
use mls_experimental_analysi.Base.Dict.{lookup, lookup-insert}
use mls_experimental_analysi.DsLib.{Mls}
use mls_experimental_analysi.Ds.{DsData, Wire, Response, Payload, read_body}
use mls_experimental_analysi.Ds.Handlers.{
  register_client, list_clients, get_key_packages, publish_key_packages, consume_key_package,
  get_group_info, group_exists, post_group_info,
}
use mls_experimental_analysi.Ds.Queues.{send_welcome, msg_send, msg_recv}
use mls_experimental_analysi.Ds.Requests.{Request, handle, run}

module _ (m : Mls) (w : Wire m) where
  -- The request neither resets the service nor posts a group info for the group.
  abbrev pub Between : Bytes → Request → Type 0
  Between id request =
      (request ≢ Request.resets)
      × ((path : String) (payload : Payload)
          → request ≡ Request.posts_group_info path payload
          → w.decode_id path ≢ some id)

  -- The group info of the group is out.
  abbrev Taken : Bytes → DsData m → Type 0
  Taken id d =
      (d.group_info_mutex ≡ true)
      × (d.group_info.poisoned ≡ false)
      × (lookup id d.group_info.content ≡ some none)

  Taken-register_client :
      (id : Bytes) (payload : Payload) (d : DsData m)
      → Taken id d
      → Taken id (register_client m w payload d).0
  unfolding register_client
  Taken-register_client id payload d taken = ground arith

  Taken-list_clients : (id : Bytes) (d : DsData m) → Taken id d → Taken id (list_clients m w d).0
  unfolding list_clients
  Taken-list_clients id d taken = ground arith

  Taken-get_key_packages :
      (id : Bytes) (path : String) (d : DsData m)
      → Taken id d
      → Taken id (get_key_packages m w path d).0
  unfolding get_key_packages
  Taken-get_key_packages id path d taken = ground arith

  Taken-publish_key_packages :
      (id : Bytes) (path : String) (payload : Payload) (d : DsData m)
      → Taken id d
      → Taken id (publish_key_packages m w path payload d).0
  unfolding publish_key_packages
  Taken-publish_key_packages id path payload d taken = ground arith

  Taken-consume_key_package :
      (id : Bytes) (path : String) (d : DsData m)
      → Taken id d
      → Taken id (consume_key_package m w path d).0
  unfolding consume_key_package
  Taken-consume_key_package id path d taken = ground arith

  Taken-group_exists :
      (id : Bytes) (path : String) (d : DsData m)
      → Taken id d
      → Taken id (group_exists m w path d).0
  unfolding group_exists
  Taken-group_exists id path d taken = ground arith

  Taken-send_welcome :
      (id : Bytes) (payload : Payload) (d : DsData m)
      → Taken id d
      → Taken id (send_welcome m w payload d).0
  unfolding send_welcome
  Taken-send_welcome id payload d taken = ground arith

  Taken-msg_send :
      (id : Bytes) (payload : Payload) (d : DsData m)
      → Taken id d
      → Taken id (msg_send m w payload d).0
  unfolding msg_send
  Taken-msg_send id payload d taken = ground arith

  Taken-msg_recv :
      (id : Bytes) (path : String) (d : DsData m) → Taken id d → Taken id (msg_recv m w path d).0
  unfolding msg_recv
  Taken-msg_recv id path d taken = ground arith

  Taken-get_group_info :
      (id : Bytes) (path : String) (d : DsData m)
      → Taken id d
      → Taken id (get_group_info m w path d).0
  unfolding get_group_info
  Taken-get_group_info id path d taken = elim (Option-cases (w.decode_id path)) [
    | inl bad ↦ ground arith
    | inr (id', decoded) ↦
        ground (arith, lookup-insert id' id none d.group_info.content, ==_iff id' id)
  ]

  Taken-post_group_info :
      (id : Bytes) (path : String) (payload : Payload) (d : DsData m)
      → w.decode_id path ≢ some id
      → Taken id d
      → Taken id (post_group_info m w path payload d).0
  unfolding post_group_info
  Taken-post_group_info id path payload d ne taken = elim (Option-cases (w.decode_id path)) [
    | inl bad ↦ ground arith
    | inr (id', decoded) ↦
        let other : id' ≢ id = λ e. ne (decoded ∙ ap some e) in
        elim (Option-cases (read_body payload)) [
          | inl cut ↦ ground arith
          | inr (bytes, read) ↦ elim (Option-cases (w.group_info bytes)) [
            | inl bad ↦ ground arith
            | inr (info, got) ↦
                ground (arith, lookup-insert id' id (some info) d.group_info.content, ==_iff id' id)
          ]
        ]
  ]

  handle-Taken :
      (id : Bytes) (request : Request) (d : DsData m)
      → Between id request
      → Taken id d
      → Taken id (handle m w request d).0
  unfolding handle
  handle-Taken id (Request.register_clients payload) d ne taken =
      Taken-register_client id payload d taken
  handle-Taken id Request.lists_clients d ne taken = Taken-list_clients id d taken
  handle-Taken id Request.resets d ne taken = absurd (ne.0 refl)
  handle-Taken id (Request.gets_key_packages path) d ne taken =
      Taken-get_key_packages id path d taken
  handle-Taken id (Request.publishes_key_packages path payload) d ne taken =
      Taken-publish_key_packages id path payload d taken
  handle-Taken id (Request.consumes_key_package path) d ne taken =
      Taken-consume_key_package id path d taken
  handle-Taken id (Request.gets_group_info path) d ne taken = Taken-get_group_info id path d taken
  handle-Taken id (Request.peeks_group path) d ne taken = Taken-group_exists id path d taken
  handle-Taken id (Request.posts_group_info path payload) d ne taken =
      Taken-post_group_info id path payload d (ne.1 path payload refl) taken
  handle-Taken id (Request.sends_welcome payload) d ne taken = Taken-send_welcome id payload d taken
  handle-Taken id (Request.sends_message payload) d ne taken = Taken-msg_send id payload d taken
  handle-Taken id (Request.receives path) d ne taken = Taken-msg_recv id path d taken

  run-Taken :
      (id : Bytes) (requests : List Request) (d : DsData m)
      → All (Between id) requests
      → Taken id d
      → Taken id (run m w requests d)
  unfolding run
  run-Taken id [] d ne taken = taken
  run-Taken id (request ∷ requests) d (first, others) taken =
      run-Taken id requests (handle m w request d).0 others (handle-Taken id request d first taken)

  forbidden_lem :
      (path : String) (d : DsData m) (id : Bytes)
      → w.decode_id path ≡ some id
      → Taken id d
      → (get_group_info m w path d).1 ≡ Response.forbidden
  unfolding get_group_info
  forbidden_lem path d id decoded taken = ground arith

  -- With the group info mutex on, once a request for the group info of a group is answered with its
  -- body, a later request for it is forbidden, whatever is requested in between but a `reset`,
  -- unless a group info is posted for that very group.
  pub get_group_info-exclusive :
      (path : String) (d : DsData m) (id : Bytes) (out : Bytes) (requests : List Request)
      → d.group_info_mutex ≡ true
      → w.decode_id path ≡ some id
      → (get_group_info m w path d).1 ≡ Response.body out
      → All (Between id) requests
      → (get_group_info m w path (run m w requests (get_group_info m w path d).0)).1
        ≡ Response.forbidden
  unfolding get_group_info
  get_group_info-exclusive path d id out requests mutex decoded served elsewhere =
      let taken : Taken id (get_group_info m w path d).0 =
        ground (arith, lookup-insert id id none d.group_info.content, ==_iff id id) in
      let later = run-Taken id requests (get_group_info m w path d).0 elsewhere taken in
      let d' = run m w requests (get_group_info m w path d).0 in
      forbidden_lem path d' id decoded later
