-- ===== src/Mqtt.antt =====
-- The MQTT listener of the clients: emulated_client/src/pubsub/mqtt_updater.rs, and `parse_message`
-- of emulated_client/src/pubsub/mod.rs. The client of the broker is a parameter, `Client`; the
-- messages that the users' threads take are a list, in which those of one user are in the order in
-- which the threads wait for each other.
pub mod Parsing
pub mod Counts
pub mod Wishes
pub mod Deliveries
mod Tests
use Prim.Native.String.{slice, len}
use text.Mathlib.Text.{starts_with}
use mls_experimental_analysi.Base.{
  ℕ, zero, suc, String, string_eq, append, Bytes, Bool, true, false, not, ◌==◌, nat_eq,
  if◌then◌else◌, List, [], ◌∷◌, ◌++◌, map, retain, contains, Option, none, some, Outcome, returns,
  panics, spins, ◌>>=◌,
}
use mls_experimental_analysi.Base.Dict.{Dict, lookup, insert, keys}
use mls_experimental_analysi.DsLib.{WelcomeAcknowledgement}

pub data MqttQueueMessage : Type 0 where
  subscribe unsubscribe : String → String → MqttQueueMessage

-- A call of the client.
pub data Request : Type 0 where
  publish : String → WelcomeAcknowledgement → Request
  subscribe unsubscribe : String → Request

-- What the loop takes: a packet of the broker, a packet that the client sends, a command, or a
-- broken connection.
pub data Event : Type 0 where
  incoming_publish : String → Bytes → Event
  incoming_sub_ack : ℕ → Event
  outgoing_subscribe : ℕ → Event
  other_packet : Event
  connection_error : Event
  command : MqttQueueMessage → Event

-- `AsyncClient`: a call that fails gives none.
pub record Client : Type 1 where
  pub State : Type 0
  pub call : Request → State → Option State

pub record Pending : Type 0 where
  pub user : String
  pub topic : String
  pub id : Option ℕ

-- A message for a user's thread.
pub record Delivery : Type 0 where
  pub username : String
  pub topic : String
  pub message : Bytes

pub record MqttUpdater (c : Client) : Type 0 where
  pub subscriptions : Dict String (List String)
  pub pending_subscriptions : List Pending
  pub deliveries : List Delivery
  pub client : c.State

-- `trim_start_matches`: each turn that takes the prefix off shortens the text.
abbrev pub trim_start_matches : ℕ → String → String → String
trim_start_matches zero s prefix = s
trim_start_matches (suc fuel) s prefix =
    let rest = trim_start_matches fuel (slice s (len prefix) (len s)) prefix in
    if starts_with s prefix then rest else s

-- The acknowledgement of a user to the group of the topic.
abbrev pub group_ack : Pending → Request
group_ack p =
    let group_name = trim_start_matches (len p.topic) p.topic "cgka/group/" in
    Request.publish (append "cgka/group/" group_name)
      (record { sender = p.user; group = group_name })

abbrev pub has_id : ℕ → Pending → Bool
has_id pkid p = elim p.id [ none ↦ false | some id ↦ id == pkid ]

-- `find`
abbrev pub with_id : ℕ → List Pending → Option Pending
with_id pkid [] = none
with_id pkid (p ∷ ps) = let rest = with_id pkid ps in if has_id pkid p then some p else rest

-- The first subscription without an id gets it.
unfoldable pub assign_id : ℕ → List Pending → List Pending
assign_id pkid [] = []
assign_id pkid (p ∷ ps) =
    let rest = assign_id pkid ps in
    elim p.id [ none ↦ record p { id = some pkid } ∷ ps | some _ ↦ p ∷ rest ]

-- Whether some user is subscribed to the topic.
abbrev pub subscribed : String → Dict String (List String) → Bool
subscribed topic [] = false
subscribed topic ((user, topics) ∷ d) =
    let rest = subscribed topic d in if contains topics topic then true else rest

-- `deliver_to_users`
unfoldable pub deliver_to_users : String → Bytes → Dict String (List String) → List Delivery
deliver_to_users topic message [] = []
deliver_to_users topic message ((user, topics) ∷ d) =
    let rest = deliver_to_users topic message d in
    if contains topics topic
    then record { username = user; topic = topic; message = message } ∷ rest
    else rest

module _ (c : Client) where
  -- `MqttUpdater::new`, for the names of the users.
  unfoldable pub new : List String → c.State → MqttUpdater c
  new users client = record {
    subscriptions = map (λ user. (user, [])) users;
    pending_subscriptions = [];
    deliveries = [];
    client = client;
  }

  -- A call with `expect`.
  abbrev pub send : Request → MqttUpdater c → Outcome (MqttUpdater c)
  send request s = elim (c.call request s.client) [
    | none ↦ panics
    | some client ↦ returns (record s { client = client })
  ]

  -- The acknowledgement of a subscription to a group.
  abbrev pub acknowledge : Pending → MqttUpdater c → Outcome (MqttUpdater c)
  acknowledge p s = if starts_with p.topic "cgka/group/" then send (group_ack p) s else returns s

  abbrev pub settle_pending : ℕ → Option Pending → MqttUpdater c → Outcome (MqttUpdater c)
  settle_pending pkid none s = returns s
  settle_pending pkid (some p) s = acknowledge p (record s {
    pending_subscriptions = retain (λ q. not (has_id pkid q)) s.pending_subscriptions;
  })

  -- An unknown user panics.
  unfoldable pub on_subscribe : String → String → MqttUpdater c → Outcome (MqttUpdater c)
  on_subscribe user topic s = elim (lookup user s.subscriptions) [
    | none ↦ panics
    | some topics ↦ do
      s' ←
          send (Request.subscribe topic)
            (record s { subscriptions = insert user (topics ++ topic ∷ []) s.subscriptions })
      returns (record s' {
        pending_subscriptions =
            s'.pending_subscriptions ++ record { user = user; topic = topic; id = none } ∷ [];
      })
  ]

  abbrev pub without_topic : String → String → Dict String (List String) → Dict String (List String)
  without_topic user topic d = elim (lookup user d) [
    | none ↦ d
    | some topics ↦ insert user (retain (λ t. not (t == topic)) topics) d
  ]

  unfoldable pub on_unsubscribe : String → String → MqttUpdater c → Outcome (MqttUpdater c)
  on_unsubscribe user topic s =
      let s' = record s { subscriptions = without_topic user topic s.subscriptions } in
      if subscribed topic s'.subscriptions then returns s' else send (Request.unsubscribe topic) s'

  -- One turn of the loop in `run`.
  unfoldable pub step : Event → MqttUpdater c → Outcome (MqttUpdater c)
  unfolding on_subscribe on_unsubscribe deliver_to_users assign_id
  step (Event.incoming_publish topic message) s =
      returns
        (record s { deliveries = s.deliveries ++ deliver_to_users topic message s.subscriptions })
  step (Event.incoming_sub_ack pkid) s =
      settle_pending pkid (with_id pkid s.pending_subscriptions) s
  step (Event.outgoing_subscribe pkid) s =
      returns (record s { pending_subscriptions = assign_id pkid s.pending_subscriptions })
  step Event.other_packet s = returns s
  step Event.connection_error s = panics
  step (Event.command (MqttQueueMessage.subscribe user topic)) s = on_subscribe user topic s
  step (Event.command (MqttQueueMessage.unsubscribe user topic)) s = on_unsubscribe user topic s

  unfoldable pub run : List Event → MqttUpdater c → Outcome (MqttUpdater c)
  unfolding step
  run [] s = returns s
  run (event ∷ events) s = do s' ← step event s; run events s'
