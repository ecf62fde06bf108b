-- ===== src/Storage/Provider.antt =====
-- The operations of the store that OpenMLS calls:
-- emulated_client/src/provider/null_storage_provider.rs, `StorageProvider for NullStorageProvider`,
-- for types with a format.
use mls_experimental_analysi.Base.{Bytes, Option, none, some}
use mls_experimental_analysi.Storage.{
  Format, Json, Label, build_key_from_vec, Action, ◌>>=◌, pure, or_error, unwrap, get, write,
  delete, read,
}

-- `build_key`
abbrev pub build_key : {A : Type 0} → Format A → Label → A → Action Bytes
build_key format label a = do key ← unwrap (format.to_vec a); pure (build_key_from_vec label key)

-- What the operations on one entry share: those that pass the error of `serde_json` on, and those
-- that unwrap its result.
module _ {A : Type 0} (id_format : Format A) (id : A) where
  module _ {B : Type 0} (format : Format B) where
    abbrev write_or_error : Label → B → Action (Unit {0})
    write_or_error label b = do
      key ← or_error (id_format.to_vec id)
      value ← or_error (format.to_vec b)
      write label key value

    abbrev write_or_panic : Label → B → Action (Unit {0})
    write_or_panic label b = do
      key ← unwrap (id_format.to_vec id)
      value ← unwrap (format.to_vec b)
      write label key value

    abbrev read_or_error : Label → Action (Option B)
    read_or_error label = do key ← or_error (id_format.to_vec id); read format label key

    abbrev read_or_panic : Label → Action (Option B)
    read_or_panic label = do key ← unwrap (id_format.to_vec id); read format label key

    -- An entry that cannot be read panics.
    abbrev known : Json → Option Bytes → Action (Option B)
    known json none = pure none
    known json (some value) = unwrap ((json.option B format).from_slice value)

    abbrev get_or_panic : Json → Label → Action (Option B)
    get_or_panic json label = do
      key ← build_key id_format label id
      value ← get key
      known json value

  abbrev delete_or_error : Label → Action (Unit {0})
  delete_or_error label = do key ← or_error (id_format.to_vec id); delete label key

  abbrev delete_or_panic : Label → Action (Unit {0})
  delete_or_panic label = do key ← unwrap (id_format.to_vec id); delete label key

module _ {A : Type 0} (id_format : Format A) (id : A) where
  -- These three store nothing.
  unfoldable pub write_tree : {B : Type 0} → B → Action (Unit {0})
  write_tree b = pure tt

  unfoldable pub write_group_state : {B : Type 0} → B → Action (Unit {0})
  write_group_state b = pure tt

  unfoldable pub write_message_secrets : {B : Type 0} → B → Action (Unit {0})
  write_message_secrets b = pure tt

  unfoldable pub write_interim_transcript_hash : {B : Type 0} → Format B → B → Action (Unit {0})
  unfolding write
  write_interim_transcript_hash format b =
      write_or_panic id_format id format Label.interim_transcript_hash b

  unfoldable pub write_context : {B : Type 0} → Format B → B → Action (Unit {0})
  unfolding write
  write_context format b = write_or_panic id_format id format Label.group_context b

  unfoldable pub write_confirmation_tag : {B : Type 0} → Format B → B → Action (Unit {0})
  unfolding write
  write_confirmation_tag format b = write_or_panic id_format id format Label.confirmation_tag b

  unfoldable pub write_signature_key_pair : {B : Type 0} → Format B → B → Action (Unit {0})
  unfolding write
  write_signature_key_pair format b = write_or_panic id_format id format Label.signature_key_pair b

  unfoldable pub write_key_package : {B : Type 0} → Format B → B → Action (Unit {0})
  unfolding write
  write_key_package format b = write_or_panic id_format id format Label.key_package b

  unfoldable pub write_psk : {B : Type 0} → Format B → B → Action (Unit {0})
  unfolding write
  write_psk format b = write_or_panic id_format id format Label.psk b

  unfoldable pub write_encryption_key_pair : {B : Type 0} → Format B → B → Action (Unit {0})
  unfolding write
  write_encryption_key_pair format b =
      write_or_panic id_format id format Label.encryption_key_pair b

  unfoldable pub write_mls_join_config : {B : Type 0} → Format B → B → Action (Unit {0})
  unfolding write
  write_mls_join_config format b = write_or_panic id_format id format Label.join_config b

  unfoldable pub write_resumption_psk_store : {B : Type 0} → Format B → B → Action (Unit {0})
  unfolding write
  write_resumption_psk_store format b =
      write_or_error id_format id format Label.resumption_psk_store b

  unfoldable pub write_own_leaf_index : {B : Type 0} → Format B → B → Action (Unit {0})
  unfolding write
  write_own_leaf_index format b = write_or_error id_format id format Label.own_leaf_node_index b

  unfoldable pub write_group_epoch_secrets : {B : Type 0} → Format B → B → Action (Unit {0})
  unfolding write
  write_group_epoch_secrets format b = write_or_error id_format id format Label.epoch_secrets b

  unfoldable pub tree : {B : Type 0} → Json → Format B → Action (Option B)
  unfolding build_key_from_vec
  tree json format = get_or_panic id_format id format json Label.tree

  unfoldable pub group_context : {B : Type 0} → Json → Format B → Action (Option B)
  unfolding build_key_from_vec
  group_context json format = get_or_panic id_format id format json Label.group_context

  unfoldable pub interim_transcript_hash : {B : Type 0} → Json → Format B → Action (Option B)
  unfolding build_key_from_vec
  interim_transcript_hash json format =
      get_or_panic id_format id format json Label.interim_transcript_hash

  unfoldable pub confirmation_tag : {B : Type 0} → Json → Format B → Action (Option B)
  unfolding build_key_from_vec
  confirmation_tag json format = get_or_panic id_format id format json Label.confirmation_tag

  unfoldable pub signature_key_pair : {B : Type 0} → Json → Format B → Action (Option B)
  unfolding build_key_from_vec
  signature_key_pair json format = get_or_panic id_format id format json Label.signature_key_pair

  unfoldable pub key_package : {B : Type 0} → Format B → Action (Option B)
  unfolding read
  key_package format = read_or_panic id_format id format Label.key_package

  unfoldable pub psk : {B : Type 0} → Format B → Action (Option B)
  unfolding read
  psk format = read_or_panic id_format id format Label.psk

  unfoldable pub encryption_key_pair : {B : Type 0} → Format B → Action (Option B)
  unfolding read
  encryption_key_pair format = read_or_panic id_format id format Label.encryption_key_pair

  unfoldable pub mls_group_join_config : {B : Type 0} → Format B → Action (Option B)
  unfolding read
  mls_group_join_config format = read_or_panic id_format id format Label.join_config

  unfoldable pub group_state : {B : Type 0} → Format B → Action (Option B)
  unfolding read
  group_state format = read_or_error id_format id format Label.group_state

  unfoldable pub message_secrets : {B : Type 0} → Format B → Action (Option B)
  unfolding read
  message_secrets format = read_or_error id_format id format Label.message_secrets

  unfoldable pub resumption_psk_store : {B : Type 0} → Format B → Action (Option B)
  unfolding read
  resumption_psk_store format = read_or_error id_format id format Label.resumption_psk_store

  unfoldable pub own_leaf_index : {B : Type 0} → Format B → Action (Option B)
  unfolding read
  own_leaf_index format = read_or_error id_format id format Label.own_leaf_node_index

  unfoldable pub group_epoch_secrets : {B : Type 0} → Format B → Action (Option B)
  unfolding read
  group_epoch_secrets format = read_or_error id_format id format Label.epoch_secrets

  unfoldable pub delete_signature_key_pair : Action (Unit {0})
  unfolding delete
  delete_signature_key_pair = delete_or_panic id_format id Label.signature_key_pair

  unfoldable pub delete_encryption_key_pair : Action (Unit {0})
  unfolding delete
  delete_encryption_key_pair = delete_or_panic id_format id Label.encryption_key_pair

  unfoldable pub delete_key_package : Action (Unit {0})
  unfolding delete
  delete_key_package = delete_or_error id_format id Label.key_package

  unfoldable pub delete_psk : Action (Unit {0})
  unfolding delete
  delete_psk = delete_or_error id_format id Label.psk

  unfoldable pub delete_group_state : Action (Unit {0})
  unfolding delete
  delete_group_state = delete_or_error id_format id Label.group_state

  unfoldable pub delete_message_secrets : Action (Unit {0})
  unfolding delete
  delete_message_secrets = delete_or_error id_format id Label.message_secrets

  unfoldable pub delete_all_resumption_psk_secrets : Action (Unit {0})
  unfolding delete
  delete_all_resumption_psk_secrets = delete_or_error id_format id Label.resumption_psk_store

  unfoldable pub delete_own_leaf_index : Action (Unit {0})
  unfolding delete
  delete_own_leaf_index = delete_or_error id_format id Label.own_leaf_node_index

  unfoldable pub delete_group_epoch_secrets : Action (Unit {0})
  unfolding delete
  delete_group_epoch_secrets = delete_or_error id_format id Label.epoch_secrets

  unfoldable pub delete_own_leaf_nodes : Action (Unit {0})
  unfolding delete
  delete_own_leaf_nodes = delete_or_panic id_format id Label.own_leaf_nodes

  unfoldable pub delete_group_config : Action (Unit {0})
  unfolding delete
  delete_group_config = delete_or_panic id_format id Label.join_config

  unfoldable pub delete_tree : Action (Unit {0})
  unfolding delete
  delete_tree = delete_or_panic id_format id Label.tree

  unfoldable pub delete_confirmation_tag : Action (Unit {0})
  unfolding delete
  delete_confirmation_tag = delete_or_panic id_format id Label.confirmation_tag

  unfoldable pub delete_context : Action (Unit {0})
  unfolding delete
  delete_context = delete_or_panic id_format id Label.group_context

  unfoldable pub delete_interim_transcript_hash : Action (Unit {0})
  unfolding delete
  delete_interim_transcript_hash = delete_or_panic id_format id Label.interim_transcript_hash
