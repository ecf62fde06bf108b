-- ===== src/Mqtt/Counts.antt =====
-- How often the listener of emulated_client/src/pubsub/mqtt_updater.rs acknowledges.
use text.Mathlib.Text.{starts_with}
use mls_experimental_analysi.Base.{
  ℕ, suc, ◌+◌, ◌≤◌, String, string_eq, Bool, true, false, not, if◌then◌else◌, if_rule, List, [],
  ◌∷◌, ◌++◌, length, length-append, length-retain-le, retain, Option, none, some, ◌≡◌, refl, ap,
  arith, Outcome, returns, panics, ◌>>=◌, Post, Post-map, bind_rule,
}
use mls_experimental_analysi.Base.Dict.{lookup, insert}
use mls_experimental_analysi.Mqtt.{
  group_ack, MqttQueueMessage, Request, Event, Client, Pending, MqttUpdater, has_id, with_id,
  assign_id, send, settle_pending, on_subscribe, on_unsubscribe, step, run, subscribed,
  without_topic,
}

abbrev counted : Request → ℕ → ℕ
counted (Request.publish topic ack) n = suc n
counted (Request.subscribe topic) n = n
counted (Request.unsubscribe topic) n = n

abbrev with_count : {S : Type 0} → Request → ℕ → Option S → Option (S × ℕ)
with_count request n none = none
with_count request n (some state) = some (state, counted request n)

-- The client with a count of the acknowledgements that it has published.
abbrev pub recorded : Client → Client
recorded c = record {
  State = c.State × ℕ;
  call = λ request s. with_count request s.1 (c.call request s.0);
}

abbrev commands_of : Event → ℕ
commands_of (Event.command (MqttQueueMessage.subscribe user topic)) = 1
commands_of _ = 0

-- The subscriptions that were asked for.
abbrev pub subscriptions_of : List Event → ℕ
subscriptions_of [] = 0
subscriptions_of (event ∷ events) = commands_of event + subscriptions_of events

length-assign_id : (pkid : ℕ) (ps : List Pending) → length (assign_id pkid ps) ≡ length ps
unfolding assign_id
length-assign_id pkid [] = refl
length-assign_id pkid (p ∷ ps) = by_case p.id (length-assign_id pkid ps)
  where
    by_case :
        (id : Option ℕ)
        → length (assign_id pkid ps) ≡ length ps
        → length
            (elim id [ none ↦ record p { id = some pkid } ∷ ps | some _ ↦ p ∷ assign_id pkid ps ])
          ≡ suc (length ps)
    by_case none h = refl
    by_case (some _) h = ap suc h

length-retain-with_id :
    (pkid : ℕ) (ps : List Pending) (p : Pending)
    → with_id pkid ps ≡ some p
    → suc (length (retain (λ q. not (has_id pkid q)) ps)) ≤ length ps
length-retain-with_id pkid [] p e = cc
length-retain-with_id pkid (q ∷ qs) p e =
    by_case (has_id pkid q) e (length-retain-with_id pkid qs p)
  where
    by_case :
        (b : Bool)
        → (if b then some q else with_id pkid qs) ≡ some p
        → (with_id pkid qs ≡ some p
            → suc (length (retain (λ q. not (has_id pkid q)) qs)) ≤ length qs)
        → suc (
            length (
              if not b
              then q ∷ retain (λ q. not (has_id pkid q)) qs
              else retain (λ q. not (has_id pkid q)) qs))
          ≤ suc (length qs)
    by_case true e h = omega (arith, length-retain-le (λ q. not (has_id pkid q)) qs)
    by_case false e h = omega (arith, h e)

module _ (c : Client) where
  -- The acknowledgements that were published, and the subscriptions that wait for one.
  abbrev pub answers : MqttUpdater (recorded c) → ℕ
  answers s = s.client.1 + length s.pending_subscriptions

  abbrev AtMost : ℕ → Outcome (MqttUpdater (recorded c)) → Type 0
  AtMost n = Post (λ s. answers s ≤ n)

  send_rule :
      (Q : MqttUpdater (recorded c) → Type 0) (request : Request) (s : MqttUpdater (recorded c))
      → ((state : c.State) → Q (record s { client = (state, counted request s.client.1) }))
      → Post Q (send (recorded c) request s)
  send_rule Q request s h = by_case (c.call request s.client.0)
    where
      by_case :
          (o : Option c.State)
          → Post Q
              (elim (with_count request s.client.1 o) as (λ _. Outcome (MqttUpdater (recorded c))) [
                | none ↦ panics
                | some client ↦ returns (record s { client = client })
              ])
      by_case none = tt
      by_case (some state) = h state

  settle_pending-AtMost :
      (pkid : ℕ) (o : Option Pending) (s : MqttUpdater (recorded c))
      → with_id pkid s.pending_subscriptions ≡ o
      → AtMost (answers s) (settle_pending (recorded c) pkid o s)
  settle_pending-AtMost pkid none s e = omega arith
  settle_pending-AtMost pkid (some p) s e =
      let left = length (retain (λ q. not (has_id pkid q)) s.pending_subscriptions) in
      let shorter : suc left ≤ length s.pending_subscriptions =
        length-retain-with_id pkid s.pending_subscriptions p e in
      let fewer : suc s.client.1 + left ≤ answers s = omega arith in
      let same : s.client.1 + left ≤ answers s = omega arith in
      let s' : MqttUpdater (recorded c) = record s {
        pending_subscriptions = retain (λ q. not (has_id pkid q)) s.pending_subscriptions;
      } in
      if_rule (λ (x : MqttUpdater (recorded c)). answers x ≤ answers s)
        (starts_with p.topic "cgka/group/") (send (recorded c) (group_ack p) s') (returns s')
        (send_rule (λ x. answers x ≤ answers s) (group_ack p) s' (λ state. fewer)) same

  AtMost-le : {a b : ℕ} (x : Outcome (MqttUpdater (recorded c))) → a ≤ b → AtMost a x → AtMost b x
  AtMost-le {a} {b} x h k =
      Post-map {P = λ s. answers s ≤ a} {Q = λ s. answers s ≤ b} (λ s e. omega arith) x k

  on_subscribe-AtMost :
      (user topic : String) (s : MqttUpdater (recorded c))
      → AtMost (suc (answers s)) (on_subscribe (recorded c) user topic s)
  unfolding on_subscribe
  on_subscribe-AtMost user topic s = by_case (lookup user s.subscriptions)
    where
      by_case :
          (o : Option (List String))
          → AtMost (suc (answers s)) (elim o [
            | none ↦ panics
            | some topics ↦ do
              s' ←
                  send (recorded c) (Request.subscribe topic) (record s {
                    subscriptions = insert user (topics ++ topic ∷ []) s.subscriptions;
                  })
              returns (record s' {
                pending_subscriptions =
                    s'.pending_subscriptions
                    ++ record { user = user; topic = topic; id = none } ∷ [];
              })
          ])
      by_case none = tt
      by_case (some topics) =
          let Same : MqttUpdater (recorded c) → Type 0 = λ s'.
            (s'.client.1 ≡ s.client.1) × (s'.pending_subscriptions ≡ s.pending_subscriptions) in
          bind_rule Same (λ s'. answers s' ≤ suc (answers s)) _ _
            (send_rule Same _ _ (λ state. (refl, refl)))
            (λ s' (same, pending). omega (
              arith,
              same,
              ap length pending,
              length-append s'.pending_subscriptions
                  (record { user = user; topic = topic; id = none } ∷ []),
            ))

  on_unsubscribe-AtMost :
      (user topic : String) (s : MqttUpdater (recorded c))
      → AtMost (answers s) (on_unsubscribe (recorded c) user topic s)
  unfolding on_unsubscribe
  on_unsubscribe-AtMost user topic s =
      let same : answers s ≤ answers s = omega arith in
      let s' : MqttUpdater (recorded c) = record s {
        subscriptions = without_topic (recorded c) user topic s.subscriptions;
      } in
      if_rule (λ (x : MqttUpdater (recorded c)). answers x ≤ answers s)
        (subscribed topic s'.subscriptions) (returns s')
        (send (recorded c) (Request.unsubscribe topic) s') same
        (send_rule (λ x. answers x ≤ answers s) (Request.unsubscribe topic) s' (λ state. same))

  step-AtMost :
      (event : Event) (s : MqttUpdater (recorded c))
      → AtMost (commands_of event + answers s) (step (recorded c) event s)
  unfolding step
  step-AtMost (Event.incoming_publish topic message) s = omega arith
  step-AtMost (Event.incoming_sub_ack pkid) s =
      AtMost-le _ (omega arith)
        (settle_pending-AtMost pkid (with_id pkid s.pending_subscriptions) s refl)
  step-AtMost (Event.outgoing_subscribe pkid) s =
      omega (arith, length-assign_id pkid s.pending_subscriptions)
  step-AtMost Event.other_packet s = omega arith
  step-AtMost Event.connection_error s = tt
  step-AtMost (Event.command (MqttQueueMessage.subscribe user topic)) s =
      AtMost-le _ (omega arith) (on_subscribe-AtMost user topic s)
  step-AtMost (Event.command (MqttQueueMessage.unsubscribe user topic)) s =
      AtMost-le _ (omega arith) (on_unsubscribe-AtMost user topic s)

  -- Over any events in which the listener does not panic, the acknowledgements that it publishes
  -- and the subscriptions that wait for one are no more than the subscriptions that were asked for
  -- and what there was at the start: none is acknowledged twice.
  pub run-AtMost :
      (events : List Event) (s : MqttUpdater (recorded c))
      → Post (λ s'. answers s' ≤ subscriptions_of events + answers s) (run (recorded c) events s)
  unfolding run
  run-AtMost [] s = omega arith
  run-AtMost (event ∷ events) s =
      bind_rule (λ s'. answers s' ≤ commands_of event + answers s) _ (step (recorded c) event s) _
        (step-AtMost event s)
        (λ s' h.
          Post-map {Q = λ s''. answers s'' ≤ subscriptions_of (event ∷ events) + answers s}
            (λ s'' k. omega arith) (run (recorded c) events s') (run-AtMost events s'))
