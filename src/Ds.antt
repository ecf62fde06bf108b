-- ===== src/Ds.antt =====
-- The delivery service: emulated_client/delivery-service/ds/src/main.rs. A handler takes the state
-- `DsData` to a new state and a response. Decoding and encoding of bodies are parameters.
pub mod Handlers
pub mod Queues
pub mod Requests
pub mod Rules
pub mod Frame
pub mod Epochs
pub mod Copies
pub mod Delivery
pub mod Receive
pub mod KeyPackages
pub mod GroupInfos
pub mod Locks
pub mod Welcomes
mod Tests
use mls_experimental_analysi.Base.{
  ℕ, ◌+◌, ◌-◌, ◌<◌, String, ◌≡◌, refl, Bool, true, false, Option, none, some, List, [], ◌∷◌, ◌++◌,
  ltb, if◌then◌else◌, ◌==◌, bytes_eq, Bytes, retain, contains, not, Outcome, returns, panics, spins,
  Result, ok, err,
}
use mls_experimental_analysi.Base.Dict.{Dict, lookup, insert, values, contains_key}
use mls_experimental_analysi.DsLib.{
  Mls, ProtocolMessage, ClientInfo, GroupMessage, GroupInfoAndTree, HashedPackage, new_client_info,
  consume_kp,
}

-- A `Mutex`: a panic of a handler that holds the lock poisons it, and `lock` then fails.
pub record Mutex (A : Type 0) : Type 0 where
  pub poisoned : Bool
  pub content : A

pub record DsData (m : Mls) : Type 0 where
  pub clients : Mutex (Dict Bytes (ClientInfo m))
  pub group_info_mutex : Bool
  pub groups : Mutex (Dict Bytes ℕ)
  pub group_info : Mutex (Dict Bytes (Option (GroupInfoAndTree m)))

-- What a handler sends in the body of a response.
pub data Content (m : Mls) : Type 0 where
  client_list : List (ClientInfo m) → Content m
  key_package_list : List (HashedPackage m) → Content m
  key_package : m.KeyPackage → Content m
  group_info_and_tree : GroupInfoAndTree m → Content m
  message_list : List (GroupMessage m) → Content m

-- A response: its status, with the body of a 200 where it has one. `crashed` stands for the panic of
-- a handler, which sends none.
pub data Response : Type 0 where
  done : Response
  welcome : String → Response
  exists : Bool → Response
  body : Bytes → Response
  no_content partial_content bad_request forbidden not_found conflict internal_server_error :
      Response
  crashed : Response

-- The encodings of `base64` and `tls_codec` that the handlers call.
pub record Wire (m : Mls) : Type 0 where
  pub decode_id : String → Option Bytes
  pub client_info : Bytes → Option (String × List (HashedPackage m))
  pub client_key_packages : Bytes → Option (List (HashedPackage m))
  pub group_info : Bytes → Option (GroupInfoAndTree m)
  pub group_message : Bytes → Option (GroupMessage m)
  pub serialize : Content m → Option Bytes

-- The chunks of a request's body; `none` is a chunk that did not arrive.
abbrev pub Payload : Type 0
Payload = List (Option Bytes)

unfoldable pub read_body : Payload → Option Bytes
read_body [] = some []
read_body (none ∷ items) = none
read_body (some item ∷ items) = elim (read_body items) [
  | none ↦ none
  | some bytes ↦ some (item ++ bytes)
]

-- A handler up to a point: it goes on with a value, or has returned.
pub data Flow (m : Mls) (A : Type 0) : Type 0 where
  next : A → Flow m A
  reply : DsData m → Response → Flow m A

infixl 5 ◌>>=◌
abbrev pub ◌>>=◌ : {m : Mls} {A B : Type 0} → Flow m A → (A → Flow m B) → Flow m B
next a >>= f = f a
reply d response >>= f = reply d response

module _ {m : Mls} where
  abbrev pub or_reply : {A : Type 0} → Option A → DsData m → Response → Flow m A
  or_reply none d response = reply d response
  or_reply (some a) d response = next a

  abbrev pub lock : {A : Type 0} → Mutex A → DsData m → Flow m A
  lock mutex d = if mutex.poisoned then reply d internal_server_error else next mutex.content

  abbrev pub finish : Flow m (DsData m × Response) → DsData m × Response
  finish (next q) = q
  finish (reply d response) = (d, response)

  -- A panic outside every lock ends the handler and leaves the state alone.
  abbrev pub or_crash : {A : Type 0} → Outcome A → DsData m → Flow m A
  or_crash (returns a) d = next a
  or_crash panics d = reply d crashed
  or_crash spins d = reply d crashed

  abbrev pub set_clients : DsData m → Dict Bytes (ClientInfo m) → DsData m
  set_clients d clients = record d { clients = record { poisoned = false; content = clients } }

  abbrev pub set_groups : DsData m → Dict Bytes ℕ → DsData m
  set_groups d groups = record d { groups = record { poisoned = false; content = groups } }

  abbrev pub set_group_info : DsData m → Dict Bytes (Option (GroupInfoAndTree m)) → DsData m
  set_group_info d infos = record d { group_info = record { poisoned = false; content = infos } }

  -- The first client that has reserved the hash gets the message, and the reservation ends.
  unfoldable pub offer :
      Bytes → GroupMessage m → Dict Bytes (ClientInfo m) → Option (Dict Bytes (ClientInfo m))
  offer hash welcome_msg [] = none
  offer hash welcome_msg ((name, client) ∷ clients) =
      let rest = offer hash welcome_msg clients in
      if contains client.reserved_key_pkg_hash hash
      then some (
          (
            name,
            record client {
              reserved_key_pkg_hash = retain (λ h. not (h == hash)) client.reserved_key_pkg_hash;
              welcome_queue = client.welcome_queue ++ welcome_msg ∷ [];
            },
          )
          ∷ clients)
      else (elim rest [ none ↦ none | some later ↦ some ((name, client) ∷ later) ])

  -- The loop over the secrets of a welcome message, which ends at the first client found.
  unfoldable pub offer_all :
      List Bytes → GroupMessage m → Dict Bytes (ClientInfo m) → Option (Dict Bytes (ClientInfo m))
  offer_all [] welcome_msg clients = none
  offer_all (hash ∷ hashes) welcome_msg clients = elim (offer hash welcome_msg clients) [
    | some clients' ↦ some clients'
    | none ↦ offer_all hashes welcome_msg clients
  ]

  -- The loop over the recipients: the message is stored for each one up to the first that is not
  -- registered. The flag says whether all were.
  unfoldable pub deliver :
      List Bytes → GroupMessage m → Dict Bytes (ClientInfo m) → Dict Bytes (ClientInfo m) × Bool
  deliver [] group_msg clients = (clients, true)
  deliver (recipient ∷ recipients) group_msg clients = elim (lookup recipient clients) [
    | none ↦ (clients, false)
    | some client ↦
        deliver recipients group_msg
          (insert recipient (record client { msgs = client.msgs ++ group_msg ∷ [] }) clients)
  ]

-- What `msg_send` does to the epochs for a handshake message. `broken` is the answer 500 for a map
-- whose `insert` contradicts its `get`.
pub data EpochUpdate : Type 0 where
  accepted stale broken : Dict Bytes ℕ → EpochUpdate

unfoldable pub update_epoch : Dict Bytes ℕ → Bytes → ℕ → EpochUpdate
update_epoch groups group_id epoch = elim (lookup group_id groups) [
  | some group_epoch ↦
      if ltb epoch group_epoch then stale groups else (elim (lookup group_id groups) [
        | none ↦ broken (insert group_id epoch groups)
        | some _ ↦ accepted (insert group_id epoch groups)
      ])
  | none ↦ elim (lookup group_id groups) [
    | some _ ↦ broken (insert group_id epoch groups)
    | none ↦ accepted (insert group_id epoch groups)
  ]
]
