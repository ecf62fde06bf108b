-- ===== src/User/Delivery.antt =====
-- How a user of emulated_client/src/user.rs reaches the others: the delivery service, the brokers
-- and the channel to its agent. The log lines are left out.
use mls_experimental_analysi.Base.{
  String, Bytes, bytes_eq, Bool, List, [], ◌∷◌, Option, none, some, if◌then◌else◌, ◌==◌, Outcome,
  Result, ok, err,
}
use mls_experimental_analysi.Base.Dict.{insert}
use mls_experimental_analysi.Config.{Directory}
use mls_experimental_analysi.DsLib.{
  Mls, GroupInfoAndTree, WelcomeAcknowledgement, new_group_message,
}
use mls_experimental_analysi.Identity.{add_key_package}
use mls_experimental_analysi.Agent.{Timing}
use mls_experimental_analysi.User.{Library, Contact, DeliveryService, KeyDirectory}
use mls_experimental_analysi.User.Monad.{
  Method, ◌>>=◌, ◌>>◌, modify, gets, pure, ask, call, panic, attempt, map_err, unwrap_result, text,
  group_or, from_result, by_ds, by_agent_type,
}
use mls_experimental_analysi.User.Members.{mls_recipients}

-- Where the group infos and key packages of a user's delivery service are.
unfoldable pub directory :
    {m : Mls} {t : Timing} (l : Library m t) → DeliveryService → KeyDirectory m l.Env
directory l DeliveryService.request = l.backend
directory l DeliveryService.pub_sub_mqtt = l.backend
directory l (DeliveryService.gossip_sub Directory.server) = l.backend
directory l (DeliveryService.gossip_sub Directory.kademlia) = l.kademlia

module _ {m : Mls} {t : Timing} {l : Library m t} where
  unfoldable pub group_exists : String → Method l Bool
  group_exists group_name u = call (λ env. (directory l u.ds).group_exists group_name env) u

  unfoldable pub get_group_info : String → Method l (GroupInfoAndTree m)
  get_group_info group_name u = call (λ env. (directory l u.ds).group_info group_name env) u

  unfoldable pub consume_key_package : Contact → Method l m.KeyPackage
  consume_key_package contact u = call (λ env. (directory l u.ds).consume_key_package contact env) u

  unfoldable pub register : Method l (Unit {0})
  register u = map_err "Error creating user: " (call (l.register_client u.username u.identity)) u

  -- `subscribe_welcome`, `subscribe` and `unsubscribe` do nothing without a broker.
  abbrev with_broker :
      (String → l.Env → Outcome (l.Env × Result (Unit {0}))) → String → Method l (Unit {0})
  with_broker operation name = by_ds (pure tt) (call (operation name))

  unfoldable pub subscribe_welcome : Method l (Unit {0})
  subscribe_welcome = do
    username ← gets (λ u. u.username)
    with_broker l.broker_subscribe_welcome username

  unfoldable pub subscribe : String → Method l (Unit {0})
  subscribe group_name = with_broker l.broker_subscribe group_name

  unfoldable pub unsubscribe : String → Method l (Unit {0})
  unsubscribe group_name = with_broker l.broker_unsubscribe group_name

  -- `add_key_package` and `create_kp`
  unfoldable pub create_kp : Method l (Unit {0})
  create_kp = do
    identity ← gets (λ u. u.identity)
    kp ← ask (l.build_key_package identity)
    modify (λ u. record u { identity = add_key_package u.identity (l.hash_ref kp) kp })
    ds ← gets (λ u. u.ds)
    identity' ← gets (λ u. u.identity)
    let publish =
        call
          (λ env. (directory l ds).publish_key_package identity'.credential (l.hash_ref kp, kp) env)
    elim ds [
      | DeliveryService.gossip_sub Directory.kademlia ↦ publish
      | _ ↦ map_err "Error sending new key package: " publish
    ]

  -- A message goes to the recipients by the delivery service, or to the group's topic.
  unfoldable pub send_to_group : String → m.Message → List Bytes → Method l (Unit {0})
  send_to_group group_name message_out recipients = do
    username ← gets (λ u. u.username)
    let msg = new_group_message m message_out (l.as_bytes username) none recipients none
    by_ds (call (l.post_message msg)) (call (l.broker_send_msg msg group_name))

  -- `todo!()` without a broker, and an error of the broker panics.
  unfoldable pub send_ack : String → Method l (Unit {0})
  send_ack group_name = do
    username ← gets (λ u. u.username)
    let ack : WelcomeAcknowledgement = record { sender = username; group = group_name }
    by_ds panic (unwrap_result (call (l.broker_send_ack ack)))

  -- The channel to an orchestrated agent; `unreachable!()` for an independent one.
  unfoldable pub send_to_agent : String → Method l (Unit {0})
  send_to_agent msg = by_agent_type panic (λ params orchestrators. call (l.send_to_agent msg))

  -- `_publish_group_info`: the one that is given, or an export of the group's.
  unfoldable pub publish_info : l.MlsGroup → Option (GroupInfoAndTree m) → Method l (Unit {0})
  publish_info group given = do
    identity ← gets (λ u. u.identity)
    info ← (elim given [
      | some info ↦ pure info
      | none ↦ do
        exported ← ask (l.export_group_info identity group)
        group_info ← map_err "Failed to export group info - " (from_result exported)
        pure (record { group_info = group_info; ratchet_tree = some (l.export_ratchet_tree group) })
    ])
    group_name ← text (l.group_id group)
    ds ← gets (λ u. u.ds)
    call (λ env. (directory l ds).publish_group_info group_name info env)

  unfoldable pub publish_group_info : String → Method l (Unit {0})
  unfolding publish_info
  publish_group_info group_name = do
    group ← group_or "Unknown group" group_name
    publish_info group.mls_group none

  -- The user itself is no contact.
  unfoldable pub add_contact : Contact → Method l (Unit {0})
  add_contact contact = do
    identity ← gets (λ u. u.identity)
    if contact.id == identity.credential
        then pure tt
        else modify (λ u. record u { contacts = insert contact.id contact u.contacts })

  abbrev pub add_contacts : List Contact → Method l (Unit {0})
  add_contacts [] = pure tt
  add_contacts (c ∷ rest) = do add_contact c; add_contacts rest

  -- An error of the delivery service is ignored.
  unfoldable pub update_clients : Method l (Unit {0})
  update_clients = do
    listed ← attempt (call {l = l} l.list_clients)
    elim listed [ ok clients ↦ add_contacts clients | err _ ↦ pure tt ]

  -- The recipients of a message to a group, where they are not a topic's.
  abbrev pub recipients_of : l.MlsGroup → Method l (List Bytes)
  recipients_of group =
      by_ds (gets (λ u. mls_recipients u.identity.credential u.contacts (l.members group)))
        (pure [])
