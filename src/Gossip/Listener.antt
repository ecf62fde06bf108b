-- ===== src/Gossip/Listener.antt =====
-- The handlers and the loop of emulated_client/src/pubsub/gossipsub_updater.rs.
use text.Mathlib.Text.{starts_with}
use Prim.Native.String.{len}
use mls_experimental_analysi.Base.{
  ℕ, String, string_eq, nat_eq, append, Bytes, Bool, true, false, not, ◌&&◌, ◌==◌, if◌then◌else◌,
  List, [], ◌∷◌, ◌++◌, map, retain, Option, none, some, Outcome, returns, panics, ◌>>=◌, Result, ok,
  err,
}
use mls_experimental_analysi.Base.Dict.{lookup, insert, erase}
use mls_experimental_analysi.Config.{Directory}
use mls_experimental_analysi.DsLib.{Mls, DsMessage, WelcomeAcknowledgement}
use mls_experimental_analysi.DsLib.Codec.{Tls, write_ds_message}
use mls_experimental_analysi.Mqtt.{deliver_to_users, subscribed, trim_start_matches}
use mls_experimental_analysi.Gossip.{
  GossipSubQueueMessage, Swarm, QueryResult, found_record, other_record, get_error, other_result,
  Event, command, new_listen_addr, connection_established, registered_at_point, discovered,
  gossip_message, query_progressed, inbound_put, other_event, tick, GossipSubUpdater,
}

-- The Kademlia behaviour, which is there with that directory only.
abbrev pub if_kademlia : {A : Type 0} → Directory → Outcome A → Outcome A → Outcome A
if_kademlia Directory.kademlia x y = x
if_kademlia Directory.server x y = y

-- The group of a topic, and a user's acknowledgement to it.
abbrev pub group_of : String → String
group_of topic = trim_start_matches (len topic) topic "cgka/group/"

abbrev pub ack_of : String → String → WelcomeAcknowledgement
ack_of user topic = record { sender = user; group = group_of topic }

module _ (w : Swarm) where
  abbrev add_addresses : w.Peer → List w.Address → w.State → w.State
  add_addresses peer [] swarm = swarm
  add_addresses peer (address ∷ addresses) swarm =
      add_addresses peer addresses (w.add_address peer address swarm)

  abbrev pub add_peers : Directory → List (w.Peer × List w.Address) → w.State → w.State
  add_peers directory [] swarm = swarm
  add_peers directory ((peer, addresses) ∷ peers) swarm =
      let swarm' = w.add_explicit_peer peer swarm in
      add_peers directory peers (elim directory [
        | Directory.kademlia ↦ add_addresses peer addresses swarm'
        | Directory.server ↦ swarm'
      ])

module _ {w : Swarm} where
  -- `GossipSubUpdater::new`, for the names of the users, with the variables that `run` starts with.
  unfoldable pub new : List String → Directory → w.State → GossipSubUpdater w
  new users directory swarm = record {
    subscriptions = map (λ user. (user, [])) users;
    pending_get_requests = [];
    directory = directory;
    swarm = swarm;
    added_address = false;
    connected_to_rendezvous = false;
    registered = false;
    cookie = none;
    deliveries = [];
    answers = [];
  }

  abbrev pub deliver : String → Bytes → GossipSubUpdater w → GossipSubUpdater w
  deliver topic bytes s = record s {
    deliveries = s.deliveries ++ deliver_to_users topic bytes s.subscriptions;
  }

  -- A message that is published goes to the users here too.
  abbrev pub publish_here : String → Bytes → GossipSubUpdater w → GossipSubUpdater w
  publish_here topic bytes s =
      deliver topic bytes (record s { swarm = w.publish topic bytes s.swarm })

  -- The answer on a channel.
  abbrev pub answer : ℕ → Result Bytes → GossipSubUpdater w → GossipSubUpdater w
  answer channel result s = record s { answers = s.answers ++ (channel, result) ∷ [] }

  -- `unwrap` on a call of the swarm.
  abbrev pub unwrap : Option w.State → GossipSubUpdater w → Outcome (GossipSubUpdater w)
  unwrap none s = panics
  unwrap (some swarm) s = returns (record s { swarm = swarm })

  -- A user that is unknown panics.
  abbrev pub add_topic : String → String → GossipSubUpdater w → Outcome (GossipSubUpdater w)
  add_topic user topic s = elim (lookup user s.subscriptions) [
    | none ↦ panics
    | some topics ↦
        returns (record s { subscriptions = insert user (topics ++ topic ∷ []) s.subscriptions })
  ]

  abbrev pub drop_topic : String → String → GossipSubUpdater w → Outcome (GossipSubUpdater w)
  drop_topic user topic s = elim (lookup user s.subscriptions) [
    | none ↦ panics
    | some topics ↦ returns (record s {
      subscriptions = insert user (retain (λ t. not (t == topic)) topics) s.subscriptions;
    })
  ]

  abbrev pub request_record : String → ℕ → Bool → GossipSubUpdater w → Outcome (GossipSubUpdater w)
  request_record key channel remove s =
      if_kademlia s.directory
        (let (swarm, query) = w.get_record key s.swarm in
          returns (record s {
            swarm = swarm;
            pending_get_requests = insert query (channel, remove) s.pending_get_requests;
          }))
        (returns (answer channel (err "Directory was not configured as Kademlia") s))

  -- A message that cannot be serialised panics.
  abbrev pub announce :
      String → String → Option Bytes → GossipSubUpdater w → Outcome (GossipSubUpdater w)
  announce topic group_name none s = panics
  announce topic group_name (some bytes) s = returns (
      deliver (append "cgka/group/" group_name) bytes
        (record s { swarm = w.publish topic bytes s.swarm }))

  -- The acknowledgement of a subscription to a group.
  unfoldable pub acknowledge :
      {m : Mls} → Tls m → String → String → GossipSubUpdater w → Outcome (GossipSubUpdater w)
  acknowledge tls user topic s =
      if starts_with topic "cgka/group/"
      then announce topic (group_of topic)
          (write_ds_message tls (DsMessage.welcome_acknowledgement (ack_of user topic))) s
      else returns s

  unfoldable pub handle_command :
      {m : Mls} → Tls m → GossipSubQueueMessage → GossipSubUpdater w → Outcome (GossipSubUpdater w)
  unfolding acknowledge
  handle_command tls (GossipSubQueueMessage.message topic bytes) s =
      returns (publish_here topic bytes s)
  handle_command tls (GossipSubQueueMessage.subscribe user topic) s = do
    s' ← unwrap (w.subscribe topic s.swarm) s
    s'' ← add_topic user topic s'
    acknowledge tls user topic s''
  handle_command tls (GossipSubQueueMessage.unsubscribe user topic) s = do
    s' ← drop_topic user topic s
    returns (
        if subscribed topic s'.subscriptions
        then s'
        else record s' { swarm = w.unsubscribe topic s'.swarm })
  handle_command tls (GossipSubQueueMessage.publish name key value) s =
      if_kademlia s.directory (unwrap (w.put_record key value s.swarm) s) panics
  handle_command tls (GossipSubQueueMessage.get key channel remove) s =
      request_record key channel remove s
  handle_command tls (GossipSubQueueMessage.peek key channel) s = request_record key channel false s

  -- What is done with the result of a query. A record that is taken is replaced by an empty one,
  -- and an empty record is refused.
  unfoldable pub settle_query :
      ℕ → Bool → QueryResult → GossipSubUpdater w → Outcome (GossipSubUpdater w)
  settle_query channel false (found_record key value) s = returns (answer channel (ok value) s)
  settle_query channel true (found_record key []) s =
      returns (answer channel (err (append "Error 403 for " (w.show_key key))) s)
  settle_query channel true (found_record key (byte ∷ value)) s = do
    s' ← unwrap (w.put_record key [] s.swarm) s
    returns (answer channel (ok (byte ∷ value)) s')
  settle_query channel remove (other_record text) s =
      returns (answer channel (err (append "Record not found: " text)) s)
  settle_query channel remove (get_error text) s =
      returns (answer channel (err (append "Error getting record: " text)) s)
  settle_query channel remove other_result s = returns s

  -- The first result of a query ends it.
  unfoldable pub on_query : ℕ → QueryResult → GossipSubUpdater w → Outcome (GossipSubUpdater w)
  unfolding settle_query
  on_query id result s = elim (lookup id s.pending_get_requests) [
    | none ↦ returns s
    | some (channel, remove) ↦
        settle_query channel remove result
          (record s { pending_get_requests = erase id s.pending_get_requests })
  ]

  -- The listener registers once it has an address and a connection to the rendezvous point.
  abbrev pub register : Option ℕ → GossipSubUpdater w → Outcome (GossipSubUpdater w)
  register ttl s =
      if (s.added_address && s.connected_to_rendezvous) && not s.registered
      then unwrap (w.register ttl s.swarm) (record s { registered = true })
      else returns s

  -- One turn of the loop in `run`.
  unfoldable pub step :
      {m : Mls} → Tls m → Event w → GossipSubUpdater w → Outcome (GossipSubUpdater w)
  unfolding handle_command on_query
  step tls (command msg) s = handle_command tls msg s
  step tls (new_listen_addr address) s =
      register (some 14400)
        (record s { swarm = w.add_external_address address s.swarm; added_address = true })
  step tls (connection_established true) s =
      register none (record s { connected_to_rendezvous = true })
  step tls (connection_established false) s = returns s
  step tls registered_at_point s = returns (record s { swarm = w.discover s.cookie s.swarm })
  step tls (discovered registrations cookie) s =
      returns
        (record s { cookie = some cookie; swarm = add_peers w s.directory registrations s.swarm })
  step tls (gossip_message topic bytes) s = returns (deliver topic bytes s)
  step tls (query_progressed id result) s = on_query id result s
  step tls (inbound_put none) s = returns s
  step tls (inbound_put (some (key, value))) s = unwrap (w.store_put key value s.swarm) s
  step tls other_event s = returns s
  step tls tick s = returns (record s { swarm = w.discover s.cookie s.swarm })

  unfoldable pub run :
      {m : Mls} → Tls m → List (Event w) → GossipSubUpdater w → Outcome (GossipSubUpdater w)
  unfolding step
  run tls [] s = returns s
  run tls (event ∷ events) s = do s' ← step tls event s; run tls events s'
