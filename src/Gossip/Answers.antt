-- ===== src/Gossip/Answers.antt =====
-- How often the listener of emulated_client/src/pubsub/gossipsub_updater.rs answers on a channel.
use text.Mathlib.Text.{starts_with}
use mls_experimental_analysi.Base.{
  ℕ, ◌+◌, ◌≤◌, String, string_eq, nat_eq, Bytes, Bool, true, false, if◌then◌else◌, if_rule, List,
  [], ◌∷◌, Option, none, some, arith, returns, panics, Post, bind_rule,
}
use mls_experimental_analysi.Config.{Directory}
use mls_experimental_analysi.DsLib.{Mls, DsMessage}
use mls_experimental_analysi.DsLib.Codec.{Tls, write_ds_message}
use mls_experimental_analysi.Mqtt.{subscribed}
use mls_experimental_analysi.Gossip.{
  GossipSubQueueMessage, Swarm, Event, command, new_listen_addr, connection_established,
  registered_at_point, discovered, gossip_message, query_progressed, inbound_put, other_event, tick,
  GossipSubUpdater,
}
use mls_experimental_analysi.Gossip.Listener.{
  unwrap, acknowledge, handle_command, step, run, if_kademlia, announce, group_of, ack_of,
}
use mls_experimental_analysi.Gossip.Counts.{answered, waiting, asks_of, asks}
use mls_experimental_analysi.Gossip.Turns.{
  total, AtMost, weaken, silent, bind-AtMost, unwrap-AtMost, add_topic-AtMost, drop_topic-AtMost,
  announce-AtMost, request_record-AtMost, on_query-AtMost, register-AtMost,
}

module _ (channel : ℕ) where
  module _ {w : Swarm} where
    module _ {m : Mls} (tls : Tls m) where
      acknowledge-AtMost :
          (user topic : String) (s : GossipSubUpdater w)
          → AtMost channel (total channel s) (acknowledge tls user topic s)
      unfolding acknowledge
      acknowledge-AtMost user topic s =
          if_rule (λ s'. total channel s' ≤ total channel s) (starts_with topic "cgka/group/")
            (announce topic (group_of topic) bytes s) (returns s)
            (announce-AtMost channel topic (group_of topic) bytes s) (omega arith)
        where
          bytes : Option Bytes
          bytes = write_ds_message tls (DsMessage.welcome_acknowledgement (ack_of user topic))

      handle_command-AtMost :
          (msg : GossipSubQueueMessage) (s : GossipSubUpdater w)
          → AtMost channel
              (asks_of channel {w = w} (command msg) + total channel s)
              (handle_command tls msg s)
      unfolding handle_command
      handle_command-AtMost (GossipSubQueueMessage.message topic bytes) s = omega arith
      handle_command-AtMost (GossipSubQueueMessage.subscribe user topic) s =
          silent channel (total channel s) _ (
            bind-AtMost channel (total channel s) _ _
              (unwrap-AtMost channel (w.subscribe topic s.swarm) s)
              (λ s'.
                bind-AtMost channel (total channel s') _ _ (add_topic-AtMost channel user topic s')
                  (λ s''. acknowledge-AtMost user topic s'')))
      handle_command-AtMost (GossipSubQueueMessage.unsubscribe user topic) s =
          silent channel (total channel s) _ (
            bind-AtMost channel (total channel s) _ _ (drop_topic-AtMost channel user topic s)
              (λ s'. drop_swarm s' (subscribed topic s'.subscriptions)))
        where
          drop_swarm :
              (s' : GossipSubUpdater w) (b : Bool)
              → total channel (if b then s' else record s' { swarm = w.unsubscribe topic s'.swarm })
                ≤ total channel s'
          drop_swarm s' true = omega arith
          drop_swarm s' false = omega arith
      handle_command-AtMost (GossipSubQueueMessage.publish name key value) s =
          silent channel (total channel s) _ (by_directory s.directory)
        where
          by_directory :
              (directory : Directory)
              → AtMost channel
                  (total channel s)
                  (if_kademlia directory (unwrap (w.put_record key value s.swarm) s) panics)
          by_directory Directory.server = tt
          by_directory Directory.kademlia = unwrap-AtMost channel (w.put_record key value s.swarm) s
      handle_command-AtMost (GossipSubQueueMessage.get key c remove) s =
          request_record-AtMost channel key c remove s
      handle_command-AtMost (GossipSubQueueMessage.peek key c) s =
          request_record-AtMost channel key c false s

      step-AtMost :
          (event : Event w) (s : GossipSubUpdater w)
          → AtMost channel (asks_of channel event + total channel s) (step tls event s)
      unfolding step
      step-AtMost (command msg) s = handle_command-AtMost msg s
      step-AtMost (new_listen_addr address) s = silent channel (total channel s) _ (
          register-AtMost channel (some 14400)
            (record s { swarm = w.add_external_address address s.swarm; added_address = true }))
      step-AtMost (connection_established true) s =
          silent channel (total channel s) _
            (register-AtMost channel none (record s { connected_to_rendezvous = true }))
      step-AtMost (connection_established false) s = omega arith
      step-AtMost registered_at_point s = omega arith
      step-AtMost (discovered registrations cookie) s = omega arith
      step-AtMost (gossip_message topic bytes) s = omega arith
      step-AtMost (query_progressed id result) s =
          silent channel (total channel s) _ (on_query-AtMost channel id result s)
      step-AtMost (inbound_put none) s = omega arith
      step-AtMost (inbound_put (some (key, value))) s =
          silent channel (total channel s) _
            (unwrap-AtMost channel (w.store_put key value s.swarm) s)
      step-AtMost other_event s = omega arith
      step-AtMost tick s = omega arith

      -- Over any events in which the gossipsub listener does not panic, the answers on a channel
      -- and the queries that wait for one are no more than the requests made with this channel and
      -- what there was at the start: a request is answered at most once.
      pub run-AnswersOnce :
          (events : List (Event w)) (s : GossipSubUpdater w)
          → Post
              (λ s'.
                answered channel s'.answers + waiting channel s'.pending_get_requests
                ≤ asks channel events
                  + (answered channel s.answers + waiting channel s.pending_get_requests))
              (run tls events s)
      unfolding run
      run-AnswersOnce [] s = omega arith
      run-AnswersOnce (event ∷ events) s =
          bind_rule (λ s'. total channel s' ≤ asks_of channel event + total channel s) _
            (step tls event s) _ (step-AtMost event s)
            (λ s' le.
              weaken channel (asks channel events + total channel s')
                (asks channel (event ∷ events) + total channel s) (run tls events s') (omega arith)
                (run-AnswersOnce events s'))
