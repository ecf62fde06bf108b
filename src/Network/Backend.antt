-- ===== src/Network/Backend.antt =====
-- The requests of a client to the delivery service: emulated_client/src/network/backend.rs.
use mls_experimental_analysi.Base.{
  String, append, Bytes, bytes_eq, Bool, true, false, List, [], ◌∷◌, ◌==◌, if◌then◌else◌,
}
use mls_experimental_analysi.DsLib.{
  Mls, ClientInfo, GroupMessage, GroupInfoAndTree, HashedPackage, new_client_info,
}
use mls_experimental_analysi.DsLib.Codec.{
  Tls, packages_codec, client_codec, message_codec, info_codec,
}
use mls_experimental_analysi.Identity.{Identity}
use mls_experimental_analysi.User.{KeyDirectory}
use mls_experimental_analysi.Network.{
  Web, Http, Call, ◌>>=◌, pure, fail, unwrap, lift, expect, decoded, get, post,
}

module _ {m : Mls} (tls : Tls m) {w : Web} (h : Http w) (ds_url : w.Url) where
  abbrev at : String → w.Url
  at path = w.set_path path ds_url

  -- The path of something with an encoded name.
  abbrev pub under : String → Bytes → w.Url
  under path name = at (append path (w.encode name))

  abbrev pub named : String → w.Url → w.Url
  named username url = w.set_query (append "username=" username) url

  unfoldable pub register_client : String → Identity m → Call h.State String
  register_client username identity = do
    client_info ← lift (new_client_info m username identity.kp)
    response ← post h (client_codec tls) (at "/clients/register") client_info
    unwrap (tls.from_utf8 response)

  unfoldable pub list_clients : Call h.State (List (ClientInfo m))
  list_clients = do
    response ← get h (at "/clients/list")
    decoded "Error decoding server response"
        ((tls.vec_u32 (ClientInfo m) (client_codec tls)).read response)

  unfoldable pub consume_key_package : Bytes → Call h.State m.KeyPackage
  consume_key_package client_id = do
    response ← get h (under "/clients/key_package/" client_id)
    decoded "Error decoding server response" (tls.key_package.read response)

  -- An error panics: the request runs in a thread that is joined.
  unfoldable pub publish_key_packages : Bytes → List (HashedPackage m) → Call h.State (Unit {0})
  publish_key_packages identity ckp = do
    _ ← expect (post h (packages_codec tls) (under "/clients/key_packages/" identity) ckp)
    pure tt

  unfoldable pub group_exists : String → Call h.State Bool
  group_exists group_name = do
    response ← get h (under "/groups/peek/" (tls.as_bytes group_name))
    if response == tls.as_bytes "true"
        then pure true
        else (if response == tls.as_bytes "false"
            then pure false
            else fail "Invalid response from server")

  unfoldable pub group_info : String → String → Call h.State (GroupInfoAndTree m)
  group_info username group_name = do
    response ← get h (named username (under "/groups/group_info/" (tls.as_bytes group_name)))
    decoded "Error decoding server response" ((info_codec tls).read response)

  -- An error panics here too.
  unfoldable pub publish_group_info : String → String → GroupInfoAndTree m → Call h.State (Unit {0})
  publish_group_info username group_name info = do
    _ ← expect (
        post h (info_codec tls)
          (named username (under "/groups/group_info/" (tls.as_bytes group_name))) info)
    pure tt

  unfoldable pub send_welcome : GroupMessage m → Call h.State (Unit {0})
  send_welcome welcome_msg = do
    _ ← post h (message_codec tls) (at "/send/welcome") welcome_msg
    pure tt

  unfoldable pub send_msg : GroupMessage m → Call h.State (Unit {0})
  send_msg group_msg = do _ ← post h (message_codec tls) (at "/send/message") group_msg; pure tt

  unfoldable pub recv_msgs : Bytes → Call h.State (List (GroupMessage m))
  recv_msgs identity = do
    response ← get h (under "/recv/" identity)
    decoded "Invalid message list"
        ((tls.vec_u32 (GroupMessage m) (message_codec tls)).read response)

  unfoldable pub reset_server : Call h.State (Unit {0})
  reset_server = do _ ← expect (get h (at "reset")); pure tt

  -- The key packages and group infos of the delivery service, for a user of a name.
  unfoldable pub as_directory : String → KeyDirectory m h.State
  as_directory username = record {
    publish_key_package = λ identity kp. publish_key_packages identity (kp ∷ []);
    consume_key_package = λ contact. consume_key_package contact.id;
    group_exists = group_exists;
    group_info = λ group_name. group_info username group_name;
    publish_group_info = λ group_name info. publish_group_info username group_name info;
  }
