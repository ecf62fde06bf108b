-- ===== src/Network/Tests.antt =====
-- A client that reaches the service with Alice and Bob, who share a group in epoch 4.
use mls_experimental_analysi.Base.{
  ℕ, Bytes, bytes_eq, true, false, none, [], ◌∷◌, ◌≡◌, refl, arith, returns, panics, ok, err,
}
use mls_experimental_analysi.Base.Dict.{lookup}
use mls_experimental_analysi.DsLib.{GroupMessage, GroupInfoAndTree, ClientInfo}
use mls_experimental_analysi.DsLib.Codec.{write_message, write_info}
use mls_experimental_analysi.DsLib.Sample.{byte_mls, tls, tls_laws, tls_sizes}
use mls_experimental_analysi.Ds.{DsData}
use mls_experimental_analysi.Network.Backend.{
  send_msg, recv_msgs, group_info, publish_group_info, publish_key_packages,
}
use mls_experimental_analysi.Network.Service.{service}
use mls_experimental_analysi.Network.EndToEnd.{delivered, send_msg-refused}
use mls_experimental_analysi.Network.Directory.{
  group_info-publish_group_info, publish_key_packages-panics,
}
use mls_experimental_analysi.Network.Sample.{site, site_laws}

abbrev alice : Bytes
alice = 1 ∷ []

abbrev bob : Bytes
bob = 2 ∷ []

abbrev client : Bytes → ClientInfo byte_mls
client id = record {
  client_name = "client";
  key_packages = (7 ∷ [], id) ∷ [];
  reserved_key_pkg_hash = [];
  id = id;
  msgs = [];
  welcome_queue = [];
}

abbrev start : DsData byte_mls
start = record {
  clients = record { poisoned = false; content = (alice, client alice) ∷ (bob, client bob) ∷ [] };
  group_info_mutex = true;
  groups = record { poisoned = false; content = (9 ∷ [], 4) ∷ [] };
  group_info = record { poisoned = false; content = [] };
}

-- A handshake message of group 9 from Alice to Bob.
abbrev mail : ℕ → GroupMessage byte_mls
mail epoch = record {
  msg = epoch ∷ 9 ∷ [];
  sender = alice;
  ratchet_tree = none;
  recipients = bob ∷ [];
  active_members = none;
}

abbrev mail_bytes : ℕ → Bytes
mail_bytes epoch = 2 ∷ epoch ∷ 9 ∷ 1 ∷ 1 ∷ 0 ∷ 1 ∷ 1 ∷ 2 ∷ 0 ∷ []

delivered_example :
    (sent received emptied : DsData byte_mls) × (send_msg tls
        (service tls site)
        site.base
        (mail 5)
        start
      ≡ returns (sent, ok tt))
    × (recv_msgs tls (service tls site) site.base bob sent ≡ returns (received, ok (mail 5 ∷ [])))
    × (recv_msgs tls (service tls site) site.base bob received ≡ returns (emptied, ok []))
unfolding lookup write_message
delivered_example =
    delivered tls tls_laws site site_laws tls_sizes start (mail 5)
      (record { is_handshake_message = true; epoch = 5; group_id = 9 ∷ [] }) bob (client bob)
      (mail_bytes 5) (1 ∷ mail_bytes 5) (0 ∷ []) (λ e. cc) refl refl refl (λ is e at. ground arith)
      ((client bob, refl), ((client alice, refl), tt)) refl refl refl refl

send_msg-refused_example :
    (d' : DsData byte_mls) × (send_msg tls (service tls site) site.base (mail 3) start
      ≡ returns (d', err "Error status code refused"))
    × (d'.clients.content ≡ start.clients.content)
    × (d'.groups.content ≡ start.groups.content)
unfolding lookup write_message
send_msg-refused_example =
    send_msg-refused tls tls_laws site site_laws start (mail 3)
      (record { is_handshake_message = true; epoch = 3; group_id = 9 ∷ [] }) 4 (mail_bytes 3) refl
      refl refl refl refl (omega arith) refl

abbrev info : GroupInfoAndTree byte_mls
info = record { group_info = 5 ∷ []; ratchet_tree = none }

group_info-publish_group_info_example :
    (published served : DsData byte_mls) × (publish_group_info tls
        (service tls site)
        site.base
        "alice"
        "club"
        info
        start
      ≡ returns (published, ok tt))
    × (group_info tls (service tls site) site.base "bob" "club" published
        ≡ returns (served, ok info))
    × (group_info tls (service tls site) site.base "eve" "club" served
        ≡ returns (served, err "Error status code refused"))
unfolding write_info
group_info-publish_group_info_example =
    group_info-publish_group_info tls tls_laws site site_laws "club" info (1 ∷ 5 ∷ 0 ∷ []) start
      refl refl (λ e. cc) "alice" "bob" "eve" refl refl refl

publish_key_packages-panics_example :
    publish_key_packages tls (service tls site) site.base (3 ∷ []) ((7 ∷ [], 3 ∷ []) ∷ []) start
    ≡ panics
unfolding lookup
publish_key_packages-panics_example =
    publish_key_packages-panics tls tls_laws site site_laws (3 ∷ []) ((7 ∷ [], 3 ∷ []) ∷ [])
      (1 ∷ 1 ∷ 7 ∷ 1 ∷ 3 ∷ []) start refl refl refl
