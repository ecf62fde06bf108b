-- ===== src/DsLib.antt =====
-- The data that clients and the delivery service exchange: emulated_client/delivery-service/
-- ds-lib/src/lib.rs. The messages and key packages of OpenMLS are parameters.
pub mod Codec
pub mod RoundTrips
pub mod Sizes
pub mod SampleText
pub mod SampleCodecs
pub mod Sample
mod Tests
use mls_experimental_analysi.Base.{
  ℕ, ◌-◌, String, List, [], ◌∷◌, Option, none, some, Bool, leb, contains, bytes_eq, if◌then◌else◌,
  Bytes, length, get_elem?, Outcome, returns, panics, Result, ok, err,
}

-- What the delivery service reads of a `ProtocolMessage`.
pub record ProtocolMessage : Type 0 where
  pub is_handshake_message : Bool
  pub epoch : ℕ
  pub group_id : Bytes

-- The types of OpenMLS and the parts of them that the delivery service looks at.
pub record Mls : Type 1 where
  -- `KeyPackageIn`, `MlsMessageIn`, `RatchetTreeIn` and `VerifiableGroupInfo`
  pub KeyPackage : Type 0
  pub Message : Type 0
  pub RatchetTree : Type 0
  pub GroupInfo : Type 0
  -- the identity in the credential of a key package's leaf node
  pub identity : KeyPackage → Bytes
  -- `into_welcome`, and `new_member` of each of its secrets
  pub welcome_secrets : Message → Option (List Bytes)
  -- `ProtocolMessage::try_from`
  pub protocol_message : Message → Option ProtocolMessage

pub record GroupInfoAndTree (m : Mls) : Type 0 where
  pub group_info : m.GroupInfo
  pub ratchet_tree : Option m.RatchetTree

pub record WelcomeAcknowledgement : Type 0 where
  pub sender : String
  pub group : String

pub record GroupMessage (m : Mls) : Type 0 where
  pub msg : m.Message
  pub sender : Bytes
  pub ratchet_tree : Option m.RatchetTree
  pub recipients : List Bytes
  pub active_members : Option (List Bytes)

pub data DsMessage (m : Mls) : Type 0 where
  group_message : GroupMessage m → DsMessage m
  welcome_acknowledgement : WelcomeAcknowledgement → DsMessage m

-- A key package with its hash.
abbrev pub HashedPackage : Mls → Type 0
HashedPackage m = Bytes × m.KeyPackage

pub record ClientInfo (m : Mls) : Type 0 where
  pub client_name : String
  pub key_packages : List (HashedPackage m)
  pub reserved_key_pkg_hash : List Bytes
  pub id : Bytes
  pub msgs : List (GroupMessage m)
  pub welcome_queue : List (GroupMessage m)

-- `HashSet::insert`
abbrev pub set_insert : Bytes → List Bytes → List Bytes
set_insert x xs = if contains xs x then xs else x ∷ xs

module _ (m : Mls) where
  -- `ClientInfo::new`, which reads the first key package.
  unfoldable pub new_client_info : String → List (HashedPackage m) → Outcome (ClientInfo m)
  new_client_info client_name key_packages = elim key_packages [
    | [] ↦ panics
    | first ∷ rest ↦ returns (record {
      client_name = client_name;
      key_packages = first ∷ rest;
      reserved_key_pkg_hash = [];
      id = m.identity first.1;
      msgs = [];
      welcome_queue = [];
    })
  ]

  -- `ClientInfo::consume_kp`: the last key package, which stays where it is.
  unfoldable pub consume_kp : ClientInfo m → ClientInfo m × Result m.KeyPackage
  consume_kp c =
      if leb (length c.key_packages) 1
      then (c, err "No more keypackage available")
      else (elim (get_elem? c.key_packages (length c.key_packages - 1)) [
        | none ↦ (c, err "No more keypackage available")
        | some (hash, kp) ↦
            (record c { reserved_key_pkg_hash = set_insert hash c.reserved_key_pkg_hash }, ok kp)
      ])

  -- `GroupMessage::new`
  unfoldable pub new_group_message :
      m.Message → Bytes → Option m.RatchetTree → List Bytes → Option (List Bytes) → GroupMessage m
  new_group_message msg sender ratchet_tree recipients active_members = record {
    msg = msg;
    sender = sender;
    ratchet_tree = ratchet_tree;
    recipients = recipients;
    active_members = active_members;
  }
