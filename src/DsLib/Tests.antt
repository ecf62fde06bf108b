-- ===== src/DsLib/Tests.antt =====
-- The serializers on the instance: an acknowledgement of Bob in a group, and a client.
use mls_experimental_analysi.Base.{Bytes, [], ◌∷◌, ◌++◌, none, ◌≡◌, refl, arith, ◌↔◌, length}
use mls_experimental_analysi.DsLib.{
  WelcomeAcknowledgement, DsMessage, ClientInfo, GroupMessage, GroupInfoAndTree, new_client_info,
}
use mls_experimental_analysi.DsLib.Codec.{
  got, or_crash, write_acknowledgement, acknowledgement_size, write_client, read_client,
  write_ds_message, read_ds_message, message_size, info_size, client_size, write_message,
  write_info,
}
use mls_experimental_analysi.DsLib.RoundTrips.{
  read_ds_message-write_ds_message, read_client-write_client,
}
use mls_experimental_analysi.DsLib.Sizes.{announced_sizes}
use mls_experimental_analysi.DsLib.Sample.{byte_mls, tls, tls_laws, tls_sizes}

abbrev ack : WelcomeAcknowledgement
ack = record { sender = "bob"; group = "club" }

abbrev ack_bytes : Bytes
ack_bytes = 3 ∷ 98 ∷ 111 ∷ 98 ∷ 4 ∷ 99 ∷ 108 ∷ 117 ∷ 98 ∷ []

abbrev client : ClientInfo byte_mls
client = record {
  client_name = "bob";
  key_packages = (7 ∷ [], 8 ∷ []) ∷ [];
  reserved_key_pkg_hash = (7 ∷ []) ∷ [];
  id = 8 ∷ [];
  msgs = [];
  welcome_queue = [];
}

abbrev client_bytes : Bytes
client_bytes = 3 ∷ 98 ∷ 111 ∷ 98 ∷ 1 ∷ 1 ∷ 7 ∷ 1 ∷ 8 ∷ []

read_ds_message-write_ds_message_example :
    read_ds_message tls ((1 ∷ ack_bytes) ++ 5 ∷ [])
    ≡ got (DsMessage.welcome_acknowledgement ack) (5 ∷ [])
unfolding write_ds_message write_acknowledgement
read_ds_message-write_ds_message_example =
    read_ds_message-write_ds_message tls tls_laws (DsMessage.welcome_acknowledgement ack)
      (1 ∷ ack_bytes) (5 ∷ []) refl

read_client-write_client_example :
    read_client tls (client_bytes ++ [])
    ≡ or_crash (new_client_info byte_mls "bob" client.key_packages) []
unfolding write_client
read_client-write_client_example = read_client-write_client tls tls_laws client client_bytes [] refl

abbrev msg : GroupMessage byte_mls
msg = record {
  msg = 5 ∷ [];
  sender = 1 ∷ [];
  ratchet_tree = none;
  recipients = [];
  active_members = none;
}

abbrev msg_bytes : Bytes
msg_bytes = 1 ∷ 5 ∷ 1 ∷ 1 ∷ 0 ∷ 0 ∷ 0 ∷ []

abbrev info : GroupInfoAndTree byte_mls
info = record { group_info = 5 ∷ []; ratchet_tree = none }

announced_sizes_example :
    (7 ≡ message_size tls msg)
    × (3 ≡ info_size tls info)
    × (9 ≡ client_size tls client)
    × ((9 ≡ acknowledgement_size tls ack)
        ↔ (tls.bytes_u8.size (tls.as_bytes "bob") ≡ tls.bytes_u8.size (tls.as_bytes "club")))
unfolding write_message write_info write_client write_acknowledgement
announced_sizes_example =
    announced_sizes tls tls_sizes msg info client ack msg_bytes (1 ∷ 5 ∷ 0 ∷ []) client_bytes
      ack_bytes refl refl refl refl

-- The acknowledgement of Bob in the club announces ten bytes and takes nine.
acknowledgement_too_long : ¬ (length ack_bytes ≡ acknowledgement_size tls ack)
unfolding acknowledgement_size
acknowledgement_too_long = λ e. omega arith
