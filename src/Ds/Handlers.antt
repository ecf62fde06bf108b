-- ===== src/Ds/Handlers.antt =====
-- The handlers of emulated_client/delivery-service/ds/src/main.rs that serve key packages and group
-- infos. The log lines are left out.
use mls_experimental_analysi.Base.{
  String, true, false, none, some, [], ◌++◌, if◌then◌else◌, bytes_eq, ok, err,
}
use mls_experimental_analysi.Base.Dict.{lookup, insert, values}
use mls_experimental_analysi.DsLib.{Mls, new_client_info, consume_kp}
use mls_experimental_analysi.Ds.{
  DsData, Content, Response, Wire, Payload, read_body, Flow, or_reply, lock, set_clients,
  set_groups, set_group_info, ◌>>=◌, finish, or_crash,
}

module _ (m : Mls) (w : Wire m) where
  open w use {decode_id, serialize}

  -- A serialised body, or the status 500.
  abbrev respond : DsData m → Content m → Flow m (DsData m × Response)
  respond d content = elim (serialize content) [
    | none ↦ Flow.reply d Response.internal_server_error
    | some bytes ↦ Flow.next (d, Response.body bytes)
  ]

  unfoldable pub register_client : Payload → DsData m → DsData m × Response
  register_client payload d = finish (do
    bytes ← or_reply (read_body payload) d Response.partial_content
    (client_name, key_packages) ← or_reply (w.client_info bytes) d Response.bad_request
    info ← or_crash (new_client_info m client_name key_packages) d
    clients ← lock d.clients d
    Flow.next (
      set_clients d (insert info.id info clients),
      elim (lookup info.id clients) [
        | some old ↦ Response.conflict
        | none ↦ Response.welcome client_name
      ],
    ))

  unfoldable pub list_clients : DsData m → DsData m × Response
  list_clients d =
      finish (do clients ← lock d.clients d; respond d (Content.client_list (values clients)))

  -- It clears the clients and the epochs, and leaves the group infos.
  unfoldable pub reset : DsData m → DsData m × Response
  reset d = finish (do
    clients ← lock d.clients d
    groups ← lock d.groups d
    Flow.next (set_groups (set_clients d []) [], Response.done))

  unfoldable pub get_key_packages : String → DsData m → DsData m × Response
  get_key_packages path d = finish (do
    clients ← lock d.clients d
    id ← or_reply (decode_id path) d Response.bad_request
    client ← or_reply (lookup id clients) d Response.no_content
    respond d (Content.key_package_list client.key_packages))

  unfoldable pub publish_key_packages : String → Payload → DsData m → DsData m × Response
  publish_key_packages path payload d = finish (do
    bytes ← or_reply (read_body payload) d Response.partial_content
    clients ← lock d.clients d
    id ← or_reply (decode_id path) d Response.bad_request
    client ← or_reply (lookup id clients) d Response.not_found
    key_packages ← or_reply (w.client_key_packages bytes) d Response.bad_request
    Flow.next (
      set_clients d (
          insert id (record client { key_packages = client.key_packages ++ key_packages }) clients),
      Response.done,
    ))

  unfoldable pub consume_key_package : String → DsData m → DsData m × Response
  consume_key_package path d = finish (do
    clients ← lock d.clients d
    id ← or_reply (decode_id path) d Response.bad_request
    client ← or_reply (lookup id clients) d Response.no_content
    let (client', result) = consume_kp m client
    elim result [
      | err e ↦ Flow.reply d Response.no_content
      | ok kp ↦ respond (set_clients d (insert id client' clients)) (Content.key_package kp)
    ])

  -- With the group info mutex, the first request leaves a mark that forbids the later ones.
  unfoldable pub get_group_info : String → DsData m → DsData m × Response
  get_group_info path d = finish (do
    infos ← lock d.group_info d
    id ← or_reply (decode_id path) d Response.bad_request
    let taken = if d.group_info_mutex then set_group_info d (insert id none infos) else d
    elim (lookup id infos) [
      | none ↦ Flow.reply taken Response.no_content
      | some none ↦ Flow.reply d Response.forbidden
      | some (some group_info) ↦ respond taken (Content.group_info_and_tree group_info)
    ])

  unfoldable pub group_exists : String → DsData m → DsData m × Response
  group_exists path d = finish (do
    infos ← lock d.group_info d
    id ← or_reply (decode_id path) d Response.bad_request
    Flow.next (d, Response.exists (elim (lookup id infos) [ none ↦ false | some _ ↦ true ])))

  unfoldable pub post_group_info : String → Payload → DsData m → DsData m × Response
  post_group_info path payload d = finish (do
    bytes ← or_reply (read_body payload) d Response.partial_content
    infos ← lock d.group_info d
    id ← or_reply (decode_id path) d Response.bad_request
    group_info ← or_reply (w.group_info bytes) d Response.bad_request
    Flow.next (set_group_info d (insert id (some group_info) infos), Response.done))
