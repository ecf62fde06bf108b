-- ===== src/Storage/Queues.antt =====
-- The operations of emulated_client/src/provider/null_storage_provider.rs on lists: the queue of
-- proposals, the leaf nodes of a client, and the key pairs of an epoch.
use mls_experimental_analysi.Base.{ℕ, Bytes, List, [], ◌∷◌, ◌++◌, Option, none, some}
use mls_experimental_analysi.Storage.{
  Format, Json, Label, build_key_from_vec, Action, ◌>>=◌, pure, or_error, unwrap, get, remove,
  write, delete, read, read_list, append,
}
use mls_experimental_analysi.Storage.Provider.{build_key}

-- Key pairs that cannot be read panic.
abbrev pub listed : Json → {B : Type 0} → Format B → Option Bytes → Action (List B)
listed json format none = pure []
listed json format (some value) = unwrap ((json.vec _ format).from_slice value)

module _ (json : Json) {A : Type 0} (id_format : Format A) (group_id : A) where
  module _ {R : Type 0} (ref_format : Format R) where
    abbrev pub pair_key : R → Option Bytes
    pair_key ref = (json.pair A R id_format ref_format).to_vec (group_id, ref)

    unfoldable pub queue_proposal : {P : Type 0} → Format P → R → P → Action (Unit {0})
    unfolding write append
    queue_proposal format ref proposal = do
      key ← or_error (pair_key ref)
      value ← or_error (format.to_vec proposal)
      _ ← write Label.queued_proposal key value
      key ← or_error (id_format.to_vec group_id)
      value ← or_error (ref_format.to_vec ref)
      append json Label.proposal_queue_refs key value

    unfoldable pub queued_proposal_refs : Action (List R)
    unfolding read_list
    queued_proposal_refs = do
      key ← or_error (id_format.to_vec group_id)
      read_list ref_format json Label.proposal_queue_refs key

    -- The proposals of some references.
    unfoldable pub proposals : {P : Type 0} → Format P → List R → Action (List (R × P))
    unfolding read
    proposals format [] = pure []
    proposals format (ref ∷ refs) = do
      key ← or_error (pair_key ref)
      stored ← read format Label.queued_proposal key
      proposal ← unwrap stored
      others ← proposals format refs
      pure ((ref, proposal) ∷ others)

    unfoldable pub queued_proposals : {P : Type 0} → Format P → Action (List (R × P))
    unfolding queued_proposal_refs proposals
    queued_proposals format = do refs ← queued_proposal_refs; proposals format refs

    -- The key to remove has neither the label nor the version.
    unfoldable pub remove_proposals : List R → Action (Unit {0})
    remove_proposals [] = pure tt
    remove_proposals (ref ∷ refs) = do
      key ← or_error (pair_key ref)
      _ ← remove key
      remove_proposals refs

    unfoldable pub clear_proposal_queue : Action (Unit {0})
    clear_proposal_queue = do
      proposal_refs ← queued_proposal_refs
      _ ← remove_proposals proposal_refs
      key ← build_key id_format Label.proposal_queue_refs group_id
      remove key

    -- It removes nothing.
    unfoldable pub remove_proposal : R → Action (Unit {0})
    remove_proposal ref = pure tt

  unfoldable pub own_leaf_nodes : {B : Type 0} → Format B → Action (List B)
  unfolding read_list
  own_leaf_nodes format = do
    key ← unwrap (id_format.to_vec group_id)
    read_list format json Label.own_leaf_nodes key

  unfoldable pub append_own_leaf_node : {B : Type 0} → Format B → B → Action (Unit {0})
  unfolding append
  append_own_leaf_node format leaf_node = do
    key ← or_error (id_format.to_vec group_id)
    value ← or_error (format.to_vec leaf_node)
    append json Label.own_leaf_nodes key value

  module _ {E : Type 0} (epoch_format : Format E) (epoch : E) (leaf_index : ℕ) where
    -- The three texts one after the other.
    unfoldable pub epoch_key_pairs_id : Action Bytes
    epoch_key_pairs_id = do
      key ← or_error (id_format.to_vec group_id)
      epoch_bytes ← or_error (epoch_format.to_vec epoch)
      leaf_bytes ← or_error (json.leaf_index.to_vec leaf_index)
      pure (key ++ epoch_bytes ++ leaf_bytes)

    unfoldable pub write_encryption_epoch_key_pairs :
        {B : Type 0} → Format B → List B → Action (Unit {0})
    unfolding epoch_key_pairs_id write
    write_encryption_epoch_key_pairs format key_pairs = do
      key ← epoch_key_pairs_id
      value ← or_error ((json.vec _ format).to_vec key_pairs)
      write Label.epoch_key_pairs key value

    unfoldable pub encryption_epoch_key_pairs : {B : Type 0} → Format B → Action (List B)
    unfolding epoch_key_pairs_id build_key_from_vec
    encryption_epoch_key_pairs format = do
      key ← epoch_key_pairs_id
      value ← get (build_key_from_vec Label.epoch_key_pairs key)
      listed json format value

    unfoldable pub delete_encryption_epoch_key_pairs : Action (Unit {0})
    unfolding epoch_key_pairs_id delete
    delete_encryption_epoch_key_pairs = do
      key ← epoch_key_pairs_id
      delete Label.epoch_key_pairs key
