-- ===== src/Gossip.antt =====
-- The gossipsub listener of the clients: emulated_client/src/pubsub/gossipsub_updater.rs. The swarm
-- of `libp2p` is a parameter, `Swarm`. The messages for the users' threads and the answers on the
-- one-shot channels are lists; a channel is a number. Setting the swarm up and the log lines are
-- left out.
pub mod Listener
pub mod Counts
pub mod Turns
pub mod Answers
pub mod Records
mod Tests
use text.Mathlib.Text.{starts_with}
use Prim.Native.String.{len}
use mls_experimental_analysi.Base.{
  ℕ, String, string_eq, nat_eq, append, Bytes, Bool, true, false, not, ◌&&◌, ◌==◌, if◌then◌else◌,
  List, [], ◌∷◌, ◌++◌, map, retain, Option, none, some, Outcome, returns, panics, spins, ◌>>=◌,
  Result, ok, err,
}
use mls_experimental_analysi.Base.Dict.{Dict, lookup, insert, erase}
use mls_experimental_analysi.Config.{Directory}
use mls_experimental_analysi.DsLib.{Mls, DsMessage, WelcomeAcknowledgement}
use mls_experimental_analysi.DsLib.Codec.{Tls, write_ds_message}
use mls_experimental_analysi.Mqtt.{Delivery, deliver_to_users, subscribed, trim_start_matches}

-- A command of a broker; the number of a `get` or a `peek` is the channel for its answer.
pub data GossipSubQueueMessage : Type 0 where
  message : String → Bytes → GossipSubQueueMessage
  subscribe unsubscribe : String → String → GossipSubQueueMessage
  publish : String → String → Bytes → GossipSubQueueMessage
  get : String → ℕ → Bool → GossipSubQueueMessage
  peek : String → ℕ → GossipSubQueueMessage

-- The behaviours of the swarm. A call that fails gives none; `publish` of a message cannot, since
-- its error is only logged.
pub record Swarm : Type 1 where
  pub State : Type 0
  pub Peer : Type 0
  pub Address : Type 0
  pub Cookie : Type 0
  -- gossipsub
  pub publish : String → Bytes → State → State
  pub subscribe : String → State → Option State
  pub unsubscribe : String → State → State
  pub add_explicit_peer : Peer → State → State
  -- Kademlia: records by their keys; a query has a number
  pub put_record : String → Bytes → State → Option State
  pub get_record : String → State → State × ℕ
  pub store_put : String → Bytes → State → Option State
  pub add_address : Peer → Address → State → State
  pub show_key : String → String
  -- the rendezvous point
  pub add_external_address : Address → State → State
  pub register : Option ℕ → State → Option State
  pub discover : Option Cookie → State → State

-- The result of a query. The text of an error is what `Debug` shows.
pub data QueryResult : Type 0 where
  found_record : String → Bytes → QueryResult
  other_record : String → QueryResult
  get_error : String → QueryResult
  other_result : QueryResult

-- What the loop takes: a command, an event of the swarm, or a tick of the clock.
pub data Event (w : Swarm) : Type 0 where
  command : GossipSubQueueMessage → Event w
  new_listen_addr : w.Address → Event w
  -- whether it is with the rendezvous point
  connection_established : Bool → Event w
  registered_at_point : Event w
  discovered : List (w.Peer × List w.Address) → w.Cookie → Event w
  gossip_message : String → Bytes → Event w
  query_progressed : ℕ → QueryResult → Event w
  inbound_put : Option (String × Bytes) → Event w
  other_event : Event w
  tick : Event w

pub record GossipSubUpdater (w : Swarm) : Type 0 where
  pub subscriptions : Dict String (List String)
  -- the channel of a query, and whether the record is to be taken
  pub pending_get_requests : Dict ℕ (ℕ × Bool)
  pub directory : Directory
  pub swarm : w.State
  pub added_address : Bool
  pub connected_to_rendezvous : Bool
  pub registered : Bool
  pub cookie : Option w.Cookie
  pub deliveries : List Delivery
  pub answers : List (ℕ × Result Bytes)
