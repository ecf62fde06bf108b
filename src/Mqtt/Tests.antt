-- ===== src/Mqtt/Tests.antt =====
-- The listener on a client that takes every call.
use mls_experimental_analysi.Base.{ℕ, ◌+◌, ◌≤◌, String, List, [], ◌∷◌, some, ◌++◌, ◌≡◌, refl, Post}
use mls_experimental_analysi.Mqtt.{MqttQueueMessage, Event, Client, MqttUpdater, new, step, run}
use mls_experimental_analysi.Mqtt.Counts.{recorded, answers, subscriptions_of, run-AtMost}
use mls_experimental_analysi.Mqtt.Deliveries.{to_user, run-delivers}

abbrev client : Client
client = record { State = ℕ; call = λ request n. some (n + 1) }

abbrev topic : String
topic = "cgka/group/club"

-- Bob subscribes, and the broker answers.
abbrev events : List Event
events =
    Event.command (MqttQueueMessage.subscribe "bob" topic)
    ∷ Event.outgoing_subscribe 7
    ∷ Event.incoming_sub_ack 7
    ∷ Event.incoming_publish topic (1 ∷ [])
    ∷ []

abbrev recording : MqttUpdater (recorded client)
recording = record {
  subscriptions = ("bob", []) ∷ [];
  pending_subscriptions = [];
  deliveries = [];
  client = (0, 0);
}

run-AtMost_example :
    Post
      (λ s. answers client s ≤ subscriptions_of events + answers client recording)
      (run (recorded client) events recording)
run-AtMost_example = run-AtMost client events recording

run-delivers_example :
    Post
      (λ s.
        Post
          (λ s'.
            to_user "bob" s'.deliveries
            ≡ to_user "bob" s.deliveries
              ++ (record { username = "bob"; topic = topic; message = 2 ∷ [] } ∷ []))
          (step client (Event.incoming_publish topic (2 ∷ [])) s))
      (run client events (new client ("bob" ∷ "alice" ∷ []) 0))
run-delivers_example =
    run-delivers client ("bob" ∷ "alice" ∷ []) 0 events "bob" topic (2 ∷ []) (refl, (refl, tt))
