-- ===== src/DsLib/Codec.antt =====
-- The serializers of emulated_client/delivery-service/ds-lib/src/lib.rs. Those of the crate
-- `tls_codec`, and what its derive macros make, are a parameter, `Tls`.
use mls_experimental_analysi.Base.{
  ℕ, ◌+◌, String, Bytes, List, ◌++◌, Option, none, some, ◌⊎◌, inl, inr, Outcome, returns, panics,
  spins,
}
use mls_experimental_analysi.DsLib.{
  Mls, GroupMessage, GroupInfoAndTree, WelcomeAcknowledgement, DsMessage, ClientInfo, HashedPackage,
  new_client_info,
}

-- The end of `tls_deserialize`: a value with the bytes that are left, an error, or a panic.
pub data Read (A : Type 0) : Type 0 where
  got : A → Bytes → Read A
  failed : Read A
  crashed : Read A

infixl 5 ◌>>=◌
abbrev pub ◌>>=◌ : {A B : Type 0} → (Bytes → Read A) → (A → Bytes → Read B) → Bytes → Read B
◌>>=◌ x f bytes = elim (x bytes) [ got a rest ↦ f a rest | failed ↦ failed | crashed ↦ crashed ]

abbrev pub pure : {A : Type 0} → A → Bytes → Read A
pure a rest = got a rest

-- `unwrap`, and a value that may panic.
abbrev pub unwrap : {A : Type 0} → Option A → Bytes → Read A
unwrap none rest = crashed
unwrap (some a) rest = got a rest

abbrev pub or_crash : {A : Type 0} → Outcome A → Bytes → Read A
or_crash (returns a) rest = got a rest
or_crash panics rest = crashed
or_crash spins rest = crashed

-- `tls_serialized_len`, `tls_serialize` and `tls_deserialize` of a type. A value that is too long
-- for its length field is not written.
pub record Codec (A : Type 0) : Type 0 where
  pub size : A → ℕ
  pub write : A → Option Bytes
  pub read : Bytes → Read A

-- One part after the other.
infixr 65 ◌then_write◌
abbrev pub ◌then_write◌ : Option Bytes → Option Bytes → Option Bytes
none then_write y = none
some a then_write none = none
some a then_write some b = some (a ++ b)

pub record Tls (m : Mls) : Type 1 where
  -- `TlsByteVecU8`, `TlsByteVecU16` and `TlsByteVecU32`
  pub bytes_u8 : Codec Bytes
  pub bytes_u16 : Codec Bytes
  pub bytes_u32 : Codec Bytes
  -- `Option<T>`, `Vec<T>`, `TlsVecU32<T>`, pairs, and an enumeration of two variants
  pub option : (A : Type 0) → Codec A → Codec (Option A)
  pub vec : (A : Type 0) → Codec A → Codec (List A)
  pub vec_u32 : (A : Type 0) → Codec A → Codec (List A)
  pub pair : (A B : Type 0) → Codec A → Codec B → Codec (A × B)
  pub variants : (A B : Type 0) → Codec A → Codec B → Codec (A ⊎ B)
  -- the types of OpenMLS
  pub message : Codec m.Message
  pub ratchet_tree : Codec m.RatchetTree
  pub group_info : Codec m.GroupInfo
  pub key_package : Codec m.KeyPackage
  -- `as_bytes`, `from_utf8` and `from_utf8_lossy`
  pub as_bytes : String → Bytes
  pub from_utf8 : Bytes → Option String
  pub from_utf8_lossy : Bytes → String

module _ {m : Mls} (tls : Tls m) where
  open tls use {
    bytes_u8, bytes_u16, bytes_u32, option, vec, vec_u32, pair, variants, message, ratchet_tree,
    group_info, key_package, as_bytes, from_utf8, from_utf8_lossy,
  }

  abbrev pub tree_codec : Codec (Option m.RatchetTree)
  tree_codec = option m.RatchetTree ratchet_tree

  abbrev pub names_codec : Codec (List Bytes)
  names_codec = vec_u32 Bytes bytes_u32

  abbrev pub active_codec : Codec (Option (List Bytes))
  active_codec = option (List Bytes) (vec Bytes bytes_u32)

  -- `ClientKeyPackages`
  abbrev pub packages_codec : Codec (List (HashedPackage m))
  packages_codec = vec_u32 (HashedPackage m) (pair Bytes m.KeyPackage bytes_u8 key_package)

  unfoldable pub acknowledgement_size : WelcomeAcknowledgement → ℕ
  acknowledgement_size ack = bytes_u8.size (as_bytes ack.group) + bytes_u8.size (as_bytes ack.group)

  unfoldable pub write_acknowledgement : WelcomeAcknowledgement → Option Bytes
  write_acknowledgement ack =
      bytes_u8.write (as_bytes ack.sender) then_write bytes_u8.write (as_bytes ack.group)

  unfoldable pub read_acknowledgement : Bytes → Read WelcomeAcknowledgement
  read_acknowledgement = do
    sender_bytes ← bytes_u8.read
    sender ← unwrap (from_utf8 sender_bytes)
    group_bytes ← bytes_u8.read
    group ← unwrap (from_utf8 group_bytes)
    pure (record { sender = sender; group = group })

  unfoldable pub client_size : ClientInfo m → ℕ
  client_size c = bytes_u16.size (as_bytes c.client_name) + packages_codec.size c.key_packages

  unfoldable pub write_client : ClientInfo m → Option Bytes
  write_client c =
      bytes_u16.write (as_bytes c.client_name) then_write packages_codec.write c.key_packages

  -- A name and key packages.
  unfoldable pub read_parts : Bytes → Read (String × List (HashedPackage m))
  read_parts = do
    client_name ← bytes_u16.read
    key_packages ← packages_codec.read
    pure (from_utf8_lossy client_name, key_packages)

  -- A client without key packages panics.
  unfoldable pub read_client : Bytes → Read (ClientInfo m)
  unfolding read_parts
  read_client = do
    (client_name, key_packages) ← read_parts
    or_crash (new_client_info m client_name key_packages)

  unfoldable pub message_size : GroupMessage m → ℕ
  message_size msg =
      message.size msg.msg
      + bytes_u32.size msg.sender
      + tree_codec.size msg.ratchet_tree
      + names_codec.size msg.recipients
      + active_codec.size msg.active_members

  unfoldable pub write_message : GroupMessage m → Option Bytes
  write_message msg =
      message.write msg.msg
      then_write bytes_u32.write msg.sender
      then_write tree_codec.write msg.ratchet_tree
      then_write names_codec.write msg.recipients
      then_write active_codec.write msg.active_members

  unfoldable pub read_message : Bytes → Read (GroupMessage m)
  read_message = do
    msg ← message.read
    sender ← bytes_u32.read
    tree ← tree_codec.read
    recipients ← names_codec.read
    active_members ← active_codec.read
    pure (record {
      msg = msg;
      sender = sender;
      ratchet_tree = tree;
      recipients = recipients;
      active_members = active_members;
    })

  unfoldable pub info_size : GroupInfoAndTree m → ℕ
  info_size info = group_info.size info.group_info + tree_codec.size info.ratchet_tree

  unfoldable pub write_info : GroupInfoAndTree m → Option Bytes
  write_info info = group_info.write info.group_info then_write tree_codec.write info.ratchet_tree

  unfoldable pub read_info : Bytes → Read (GroupInfoAndTree m)
  read_info = do
    info ← group_info.read
    tree ← tree_codec.read
    pure (record { group_info = info; ratchet_tree = tree })

  -- The codecs that `TlsSize`, `TlsSerialize` and `TlsDeserialize` are for these types.
  abbrev pub acknowledgement_codec : Codec WelcomeAcknowledgement
  acknowledgement_codec = record {
    size = acknowledgement_size;
    write = write_acknowledgement;
    read = read_acknowledgement;
  }

  abbrev pub client_codec : Codec (ClientInfo m)
  client_codec = record { size = client_size; write = write_client; read = read_client }

  abbrev pub message_codec : Codec (GroupMessage m)
  message_codec = record { size = message_size; write = write_message; read = read_message }

  abbrev pub info_codec : Codec (GroupInfoAndTree m)
  info_codec = record { size = info_size; write = write_info; read = read_info }

  -- What the derive macros make for `DSMessage`.
  abbrev pub contents : DsMessage m → GroupMessage m ⊎ WelcomeAcknowledgement
  contents (DsMessage.group_message msg) = inl msg
  contents (DsMessage.welcome_acknowledgement ack) = inr ack

  abbrev pub of_contents : GroupMessage m ⊎ WelcomeAcknowledgement → DsMessage m
  of_contents (inl msg) = DsMessage.group_message msg
  of_contents (inr ack) = DsMessage.welcome_acknowledgement ack

  abbrev either_codec : Codec (GroupMessage m ⊎ WelcomeAcknowledgement)
  either_codec =
      variants (GroupMessage m) WelcomeAcknowledgement message_codec acknowledgement_codec

  unfoldable pub write_ds_message : DsMessage m → Option Bytes
  write_ds_message msg = either_codec.write (contents msg)

  unfoldable pub read_ds_message : Bytes → Read (DsMessage m)
  read_ds_message = do content ← either_codec.read; pure (of_contents content)
