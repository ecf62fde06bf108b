-- ===== src/Broker/Mqtt.antt =====
-- The MQTT broker of a user: emulated_client/src/pubsub/mqtt_broker.rs. The queue to the listener
-- and the client of MQTT are a parameter, `Connection`. The log lines are left out.
use mls_experimental_analysi.Base.{String, Bytes}
use mls_experimental_analysi.DsLib.{Mls, DsMessage, GroupMessage, WelcomeAcknowledgement}
use mls_experimental_analysi.DsLib.Codec.{Tls, write_ds_message}
use mls_experimental_analysi.Mqtt.{MqttQueueMessage}
use mls_experimental_analysi.Network.{Call, ◌>>=◌, unwrap, expect, map_err}
use mls_experimental_analysi.Broker.{group_topic, welcome_topic}

-- A blocking send on the queue, and a publication with the quality `ExactlyOnce`.
pub record Connection : Type 1 where
  pub State : Type 0
  pub enqueue : MqttQueueMessage → Call State (Unit {0})
  pub publish : String → Bytes → Call State (Unit {0})

module _ (c : Connection) (username : String) where
  -- The thread that sends panics on an error.
  unfoldable pub subscribe : String → Call c.State (Unit {0})
  subscribe group_name =
      expect (c.enqueue (MqttQueueMessage.subscribe username (group_topic group_name)))

  unfoldable pub unsubscribe : String → Call c.State (Unit {0})
  unsubscribe group_name =
      expect (c.enqueue (MqttQueueMessage.unsubscribe username (group_topic group_name)))

  unfoldable pub subscribe_welcome : String → Call c.State (Unit {0})
  subscribe_welcome user_name =
      expect (c.enqueue (MqttQueueMessage.subscribe username (welcome_topic user_name)))

module _ {m : Mls} (tls : Tls m) (c : Connection) where
  unfoldable pub send_ack : WelcomeAcknowledgement → Call c.State (Unit {0})
  send_ack ack = do
    serialized_msg ← unwrap (write_ds_message tls (DsMessage.welcome_acknowledgement ack))
    expect (c.publish (group_topic ack.group) serialized_msg)

  unfoldable pub send_welcome : GroupMessage m → String → Call c.State (Unit {0})
  send_welcome welcome_msg user_name = do
    serialized_msg ← unwrap (write_ds_message tls (DsMessage.group_message welcome_msg))
    expect (c.publish (welcome_topic user_name) serialized_msg)

  -- An error is passed on here.
  unfoldable pub send_msg : GroupMessage m → String → Call c.State (Unit {0})
  send_msg group_msg group_name = do
    serialized_msg ← unwrap (write_ds_message tls (DsMessage.group_message group_msg))
    map_err "Error publishing message: " (c.publish (group_topic group_name) serialized_msg)
