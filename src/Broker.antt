-- ===== src/Broker.antt =====
-- The topics of the brokers: emulated_client/src/pubsub/mqtt_broker.rs and gossipsub_broker.rs. A
-- broker is its user's name beside a queue to the listener.
pub mod Mqtt
pub mod Gossip
use mls_experimental_analysi.Base.{String, append}

abbrev pub group_topic : String → String
group_topic group_name = append "cgka/group/" group_name

abbrev pub welcome_topic : String → String
welcome_topic user_name = append "cgka/welcome/" user_name
