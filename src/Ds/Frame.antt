-- ===== src/Ds/Frame.antt =====
-- The handlers of ds/src/main.rs that leave the epochs of the groups alone.
use mls_experimental_analysi.Base.{String, ◌≡◌, arith}
use mls_experimental_analysi.DsLib.{Mls}
use mls_experimental_analysi.Ds.{DsData, Wire, Payload}
use mls_experimental_analysi.Ds.Handlers.{
  register_client, list_clients, get_key_packages, publish_key_packages, consume_key_package,
  get_group_info, group_exists, post_group_info,
}
use mls_experimental_analysi.Ds.Queues.{send_welcome, msg_recv}

module _ (m : Mls) (w : Wire m) where
  pub same_groups-register_client :
      (payload : Payload) (d : DsData m) → (register_client m w payload d).0.groups ≡ d.groups
  unfolding register_client
  same_groups-register_client payload d = ground arith

  pub same_groups-consume_key_package :
      (path : String) (d : DsData m) → (consume_key_package m w path d).0.groups ≡ d.groups
  unfolding consume_key_package
  same_groups-consume_key_package path d = ground arith

  pub same_groups-get_group_info :
      (path : String) (d : DsData m) → (get_group_info m w path d).0.groups ≡ d.groups
  unfolding get_group_info
  same_groups-get_group_info path d = ground arith

  pub same_groups-list_clients : (d : DsData m) → (list_clients m w d).0.groups ≡ d.groups
  unfolding list_clients
  same_groups-list_clients d = ground arith

  pub same_groups-get_key_packages :
      (path : String) (d : DsData m) → (get_key_packages m w path d).0.groups ≡ d.groups
  unfolding get_key_packages
  same_groups-get_key_packages path d = ground arith

  pub same_groups-publish_key_packages :
      (path : String) (payload : Payload) (d : DsData m)
      → (publish_key_packages m w path payload d).0.groups ≡ d.groups
  unfolding publish_key_packages
  same_groups-publish_key_packages path payload d = ground arith

  pub same_groups-group_exists :
      (path : String) (d : DsData m) → (group_exists m w path d).0.groups ≡ d.groups
  unfolding group_exists
  same_groups-group_exists path d = ground arith

  pub same_groups-post_group_info :
      (path : String) (payload : Payload) (d : DsData m)
      → (post_group_info m w path payload d).0.groups ≡ d.groups
  unfolding post_group_info
  same_groups-post_group_info path payload d = ground arith

  pub same_groups-send_welcome :
      (payload : Payload) (d : DsData m) → (send_welcome m w payload d).0.groups ≡ d.groups
  unfolding send_welcome
  same_groups-send_welcome payload d = ground arith

  pub same_groups-msg_recv :
      (path : String) (d : DsData m) → (msg_recv m w path d).0.groups ≡ d.groups
  unfolding msg_recv
  same_groups-msg_recv path d = ground arith
