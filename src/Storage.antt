-- ===== src/Storage.antt =====
-- The store of a client's keys and groups: emulated_client/src/provider/null_storage_provider.rs,
-- its entries, their keys and the helpers of `NullStorageProvider`. The crate `serde_json` is a
-- parameter, `Json`. A panic keeps the entries; that it poisons the lock is left out.
pub mod Provider
pub mod Queues
pub mod Keys
pub mod Proposals
pub mod Epochs
mod Tests
use Prim.Native.Char.{code}
use mls_experimental_analysi.Base.{
  ℕ, String, Bytes, bytes_eq, List, [], ◌∷◌, ◌++◌, Option, none, some, ◌≡◌, ap,
}
use mls_experimental_analysi.Base.Dict.{Dict, lookup, insert, erase}

pub data MemoryStorageError : Type 0 where
  unsupported_value_type_bytes unsupported_method serialization_error : MemoryStorageError

-- `serde_json` for a type: a value as bytes and back, or an error.
pub record Format (A : Type 0) : Type 0 where
  pub to_vec : A → Option Bytes
  pub from_slice : Bytes → Option A

-- `serde_json` for pairs, slices, options, the lists of bytes that the store keeps, and the numbers
-- of leaves. A list of bytes is always written.
pub record Json : Type 1 where
  pub pair : (A B : Type 0) → Format A → Format B → Format (A × B)
  pub vec : (A : Type 0) → Format A → Format (List A)
  pub option : (A : Type 0) → Format A → Format (Option A)
  pub list_to_vec : List Bytes → Bytes
  pub list_from_slice : Bytes → Option (List Bytes)
  pub leaf_index : Format ℕ

pub data Label : Type 0 where
  key_package psk encryption_key_pair signature_key_pair epoch_key_pairs tree group_context
        interim_transcript_hash confirmation_tag join_config own_leaf_nodes group_state
        queued_proposal proposal_queue_refs own_leaf_node_index epoch_secrets resumption_psk_store
        message_secrets :
      Label

-- A byte string.
abbrev pub ascii : String → Bytes
ascii String.[] = []
ascii (String.◌∷◌ c s) = code c ∷ ascii s

abbrev pub label_bytes : Label → Bytes
label_bytes Label.key_package = ascii "KeyPackage"
label_bytes Label.psk = ascii "Psk"
label_bytes Label.encryption_key_pair = ascii "EncryptionKeyPair"
label_bytes Label.signature_key_pair = ascii "SignatureKeyPair"
label_bytes Label.epoch_key_pairs = ascii "EpochKeyPairs"
label_bytes Label.tree = ascii "Tree"
label_bytes Label.group_context = ascii "GroupContext"
label_bytes Label.interim_transcript_hash = ascii "InterimTranscriptHash"
label_bytes Label.confirmation_tag = ascii "ConfirmationTag"
label_bytes Label.join_config = ascii "MlsGroupJoinConfig"
label_bytes Label.own_leaf_nodes = ascii "OwnLeafNodes"
label_bytes Label.group_state = ascii "GroupState"
label_bytes Label.queued_proposal = ascii "QueuedProposal"
label_bytes Label.proposal_queue_refs = ascii "ProposalQueueRefs"
label_bytes Label.own_leaf_node_index = ascii "OwnLeafNodeIndex"
label_bytes Label.epoch_secrets = ascii "EpochSecrets"
label_bytes Label.resumption_psk_store = ascii "ResumptionPsk"
label_bytes Label.message_secrets = ascii "MessageSecrets"

-- The current version in two bytes, the higher one first.
abbrev pub version_bytes : Bytes
version_bytes = 0 ∷ 1 ∷ []

unfoldable pub build_key_from_vec : Label → Bytes → Bytes
build_key_from_vec label key = label_bytes label ++ (key ++ version_bytes)

-- The entries of the store.
abbrev pub Values : Type 0
Values = Dict Bytes Bytes

pub data Answer (A : Type 0) : Type 0 where
  ok : A → Answer A
  err : MemoryStorageError → Answer A
  panics : Answer A

-- An operation takes the entries to new ones and answers.
abbrev pub Action : Type 0 → Type 0
Action A = Values → Values × Answer A

infixl 5 ◌>>=◌
abbrev pub ◌>>=◌ : {A B : Type 0} → Action A → (A → Action B) → Action B
◌>>=◌ x f values =
    let (values', answer) = x values in
    elim answer [ ok a ↦ f a values' | err e ↦ (values', err e) | panics ↦ (values', panics) ]

pub bind-ok :
    {B C : Type 0} (x : Action B) (f : B → Action C) (s s' : Values) (b : B)
    → x s ≡ (s', ok b)
    → (x >>= f) s ≡ f b s'
bind-ok x f s s' b e = ap (λ r. ((λ _. r) >>= f) s) e

abbrev pub pure : {A : Type 0} → A → Action A
pure a values = (values, ok a)

-- `?` on a result of `serde_json`, and `unwrap` on one.
abbrev pub or_error : {A : Type 0} → Option A → Action A
or_error none values = (values, err MemoryStorageError.serialization_error)
or_error (some a) values = (values, ok a)

abbrev pub unwrap : {A : Type 0} → Option A → Action A
unwrap none values = (values, panics)
unwrap (some a) values = (values, ok a)

-- An entry of the map.
abbrev pub get : Bytes → Action (Option Bytes)
get key values = (values, ok (lookup key values))

abbrev pub set : Bytes → Bytes → Action (Unit {0})
set key value values = (insert key value values, ok tt)

abbrev pub remove : Bytes → Action (Unit {0})
remove key values = (erase key values, ok tt)

unfoldable pub write : Label → Bytes → Bytes → Action (Unit {0})
unfolding build_key_from_vec
write label key value = set (build_key_from_vec label key) value

unfoldable pub delete : Label → Bytes → Action (Unit {0})
unfolding build_key_from_vec
delete label key = remove (build_key_from_vec label key)

module _ {A : Type 0} (format : Format A) where
  abbrev stored : Option Bytes → Action (Option A)
  stored none = pure none
  stored (some value) = do a ← or_error (format.from_slice value); pure (some a)

  unfoldable pub read : Label → Bytes → Action (Option A)
  unfolding build_key_from_vec
  read label key = do value ← get (build_key_from_vec label key); stored value

  abbrev collect : List Bytes → Option (List A)
  collect [] = some []
  collect (bytes ∷ rest) = elim (format.from_slice bytes) [
    | none ↦ none
    | some a ↦ elim (collect rest) [ none ↦ none | some others ↦ some (a ∷ others) ]
  ]

  module _ (json : Json) where
    abbrev stored_list : Option Bytes → Action (List Bytes)
    stored_list none = pure []
    stored_list (some list_bytes) = unwrap (json.list_from_slice list_bytes)

    unfoldable pub read_list : Label → Bytes → Action (List A)
    unfolding build_key_from_vec
    read_list label key = do
      list_bytes ← get (build_key_from_vec label key)
      value ← stored_list list_bytes
      or_error (collect value)

module _ (json : Json) where
  -- The entry, and an empty list where there is none, which then is in the store.
  abbrev entry : Bytes → Action Bytes
  entry key values = elim (lookup key values) [
    | none ↦ (insert key (ascii "[]") values, ok (ascii "[]"))
    | some list_bytes ↦ (values, ok list_bytes)
  ]

  unfoldable pub append : Label → Bytes → Bytes → Action (Unit {0})
  unfolding build_key_from_vec
  append label key value = do
    list_bytes ← entry (build_key_from_vec label key)
    list ← or_error (json.list_from_slice list_bytes)
    set (build_key_from_vec label key) (json.list_to_vec (list ++ value ∷ []))
