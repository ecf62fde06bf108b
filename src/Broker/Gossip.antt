-- ===== src/Broker/Gossip.antt =====
-- The gossipsub broker of a user: emulated_client/src/pubsub/gossipsub_broker.rs. The queue to the
-- listener and the one-shot channels for its answers are a parameter, `Queue`. The log lines are
-- left out.
use text.Mathlib.Text.{find?}
use mls_experimental_analysi.Base.{
  ℕ, String, append, Bytes, Bool, true, false, Option, none, some, if◌then◌else◌, returns, Result,
  ok, err,
}
use mls_experimental_analysi.DsLib.{
  Mls, DsMessage, GroupMessage, GroupInfoAndTree, WelcomeAcknowledgement,
}
use mls_experimental_analysi.DsLib.Codec.{Tls, write_ds_message, info_codec}
use mls_experimental_analysi.User.{KeyDirectory}
use mls_experimental_analysi.Gossip.{GossipSubQueueMessage}
use mls_experimental_analysi.Network.{Call, ◌>>=◌, unwrap, expect, map_err, decoded}
use mls_experimental_analysi.Broker.{group_topic, welcome_topic}

-- The end of the wait of five seconds for an answer.
pub data Wait : Type 0 where
  answered : Result Bytes → Wait
  timed_out : String → Wait
  dropped : String → Wait

pub record Queue : Type 1 where
  pub State : Type 0
  pub enqueue : GossipSubQueueMessage → Call State (Unit {0})
  pub new_channel : State → State × ℕ
  pub wait : ℕ → State → State × Wait

-- `contains`
abbrev holds : String → String → Bool
holds text part = elim (find? text part) [ none ↦ false | some position ↦ true ]

-- What comes from a wait.
abbrev outcome : Wait → Result Bytes
outcome (answered result) = result
outcome (timed_out e) = err (append "Timeout on request: " e)
outcome (dropped e) = err (append "Error receiving from channel: " e)

abbrev option_of : String → Option Bytes → Result Bytes
option_of e none = err e
option_of e (some bytes) = ok bytes

module _ (q : Queue) where
  abbrev channel : Call q.State ℕ
  channel s = let (s', c) = q.new_channel s in returns (s', ok c)

  abbrev await : ℕ → Call q.State Bytes
  await c s = let (s', w) = q.wait c s in returns (s', outcome w)

  -- The result as a value.
  abbrev attempt : ℕ → Call q.State (Result Bytes)
  attempt c s = let (s', w) = q.wait c s in returns (s', ok (outcome w))

  abbrev from_result : {A : Type 0} → Result A → Call q.State A
  from_result result s = returns (s, result)

  -- Whether a group has a record, by the answer to a peek.
  abbrev pub existence : Result Bytes → Result Bool
  existence (ok bytes) = ok true
  existence (err e) = if holds e "NotFound" then ok false else err e

module _ (q : Queue) (username : String) where
  -- The thread that sends panics on an error.
  unfoldable pub subscribe : String → Call q.State (Unit {0})
  subscribe group_name =
      expect (q.enqueue (GossipSubQueueMessage.subscribe username (group_topic group_name)))

  unfoldable pub unsubscribe : String → Call q.State (Unit {0})
  unsubscribe group_name =
      expect (q.enqueue (GossipSubQueueMessage.unsubscribe username (group_topic group_name)))

  unfoldable pub subscribe_welcome : String → Call q.State (Unit {0})
  subscribe_welcome user_name =
      expect (q.enqueue (GossipSubQueueMessage.subscribe username (welcome_topic user_name)))

  -- An error is passed on here.
  unfoldable pub publish : String → Bytes → Call q.State (Unit {0})
  publish key serialized_msg =
      map_err "Error sending to queue: "
        (q.enqueue (GossipSubQueueMessage.publish username key serialized_msg))

  module _ {m : Mls} (tls : Tls m) where
    unfoldable pub publish_group_info : String → GroupInfoAndTree m → Call q.State (Unit {0})
    unfolding publish
    publish_group_info group_name group_info = do
      serialized_msg ←
          from_result q
            (option_of "Error serializing Group Info" ((info_codec tls).write group_info))
      publish (append "group_info/" group_name) serialized_msg

    unfoldable pub publish_key_package : String → m.KeyPackage → Call q.State (Unit {0})
    unfolding publish
    publish_key_package user_name key_package = do
      serialized_msg ←
          from_result q
            (option_of "Error serializing Key Package" (tls.key_package.write key_package))
      publish (append "key_package/" user_name) serialized_msg

module _ {m : Mls} (tls : Tls m) (q : Queue) where
  abbrev send : String → DsMessage m → Call q.State (Unit {0})
  send topic msg = do
    serialized_msg ← unwrap (write_ds_message tls msg)
    q.enqueue (GossipSubQueueMessage.message topic serialized_msg)

  unfoldable pub send_ack : WelcomeAcknowledgement → Call q.State (Unit {0})
  send_ack ack = expect (send (group_topic ack.group) (DsMessage.welcome_acknowledgement ack))

  unfoldable pub send_welcome : GroupMessage m → String → Call q.State (Unit {0})
  send_welcome welcome_msg user_name =
      expect (send (welcome_topic user_name) (DsMessage.group_message welcome_msg))

  unfoldable pub send_msg : GroupMessage m → String → Call q.State (Unit {0})
  send_msg group_msg group_name =
      map_err "Error sending to queue: "
        (send (group_topic group_name) (DsMessage.group_message group_msg))

  unfoldable pub group_exists : String → Call q.State Bool
  group_exists group_name = do
    c ← channel q
    _ ← expect (q.enqueue (GossipSubQueueMessage.peek (append "group_info/" group_name) c))
    response ← attempt q c
    from_result q (existence q response)

  unfoldable pub group_info : String → Call q.State (GroupInfoAndTree m)
  group_info group_name = do
    c ← channel q
    _ ← expect (q.enqueue (GossipSubQueueMessage.get (append "group_info/" group_name) c true))
    response ← await q c
    decoded "Error deserializing group info" ((info_codec tls).read response)

  -- An error of the queue is passed on here.
  unfoldable pub consume_key_package : String → Call q.State m.KeyPackage
  consume_key_package user_name = do
    c ← channel q
    _ ←
        map_err "Error sending to queue: "
          (q.enqueue (GossipSubQueueMessage.get (append "key_package/" user_name) c false))
    response ← await q c
    decoded "Error deserializing group info" (tls.key_package.read response)

  -- The key packages and group infos in the distributed table, for a user of a name.
  unfoldable pub as_directory : String → KeyDirectory m q.State
  as_directory username = record {
    publish_key_package = λ identity kp. publish_key_package q username tls username kp.1;
    consume_key_package = λ contact. consume_key_package contact.username;
    group_exists = group_exists;
    group_info = group_info;
    publish_group_info = λ group_name info. publish_group_info q username tls group_name info;
  }
