-- ===== src/Mqtt/Deliveries.antt =====
-- To whom the listener of emulated_client/src/pubsub/mqtt_updater.rs gives a message.

use mls_experimental_analysi.Base.{
  String, string_eq, Bytes, Bool, false, not, ◌==◌, ==_iff, if◌then◌else◌, if_rule, List, [], ◌∷◌,
  ◌++◌, map, retain, contains, Option, none, some, ◌≡◌, refl, sym, ap, subst, ◌∙◌, arith, Outcome,
  returns, panics, spins, ◌>>=◌, Post, Post-map, bind_rule, Bool-cases, inl, inr,
}
use mls_experimental_analysi.Base.Dict.{Dict, keys, lookup, insert}
use mls_experimental_analysi.Mqtt.{
  MqttQueueMessage, Request, Event, Client, Delivery, MqttUpdater, with_id, send, on_subscribe,
  on_unsubscribe, step, run, new, without_topic, subscribed, deliver_to_users,
}
use mls_experimental_analysi.Mqtt.Wishes.{
  listens, wants, Subscribed, send-Subscribed, settle_pending-Subscribed, run-listens,
}

-- No name twice.
abbrev pub Unique : List String → Type 0
Unique [] = Unit
Unique (name ∷ names) = (contains names name ≡ false) × Unique names

-- The messages for a user.
abbrev pub to_user : String → List Delivery → List Delivery
to_user user = retain (λ delivery. delivery.username == user)

abbrev one : String → String → Bytes → List Delivery
one user topic message = record { username = user; topic = topic; message = message } ∷ []

deliver-none :
    (user topic : String) (message : Bytes) (d : Dict String (List String))
    → contains (keys d) user ≡ false
    → to_user user (deliver_to_users topic message d) ≡ []
unfolding deliver_to_users
deliver-none user topic message [] h = refl
deliver-none user topic message ((name, topics) ∷ d) h =
    ground (arith, deliver-none user topic message d)

deliver-listens :
    (user topic : String) (message : Bytes) (d : Dict String (List String))
    → Unique (keys d)
    → to_user user (deliver_to_users topic message d)
      ≡ (if listens user topic d then one user topic message else [])
unfolding deliver_to_users lookup
deliver-listens user topic message [] h = refl
deliver-listens user topic message ((name, topics) ∷ d) (new, others) =
    elim (Bool-cases (name == user)) [
      | inl same ↦
          let e : name ≡ user = (==_iff name user).0 same in
          let nobody =
            deliver-none user topic message d (subst (λ n. contains (keys d) n ≡ false) e new) in
          subst
            (λ n.
              to_user user (deliver_to_users topic message ((n, topics) ∷ d))
              ≡ (if listens user topic ((n, topics) ∷ d) then one user topic message else []))
            (sym e) (ground (arith, ==_iff user user, nobody))
      | inr other ↦ ground (arith, deliver-listens user topic message d others)
    ]

retain-append :
    (p : Delivery → Bool) (xs ys : List Delivery) → retain p (xs ++ ys) ≡ retain p xs ++ retain p ys
retain-append p [] ys = refl
retain-append p (x ∷ xs) ys = ground (arith, retain-append p xs ys)

keys-insert :
    (u : String) (v w : List String) (d : Dict String (List String))
    → lookup u d ≡ some w
    → keys (insert u v d) ≡ keys d
unfolding lookup insert
keys-insert u v w [] e = ground arith
keys-insert u v w ((j, x) ∷ d) e = ground (arith, ==_iff j u, keys-insert u v w d)

keys-map : (users : List String) → keys {V = List String} (map (λ user. (user, [])) users) ≡ users
keys-map [] = refl
keys-map (user ∷ users) = ap (λ rest. user ∷ rest) (keys-map users)

listens-map :
    (user topic : String) (users : List String)
    → listens user topic (map (λ name. (name, [])) users) ≡ false
unfolding lookup
listens-map user topic [] = refl
listens-map user topic (name ∷ users) = ground (arith, listens-map user topic users)

module _ (c : Client) where
  -- The same users are known.
  abbrev SameUsers : MqttUpdater c → MqttUpdater c → Type 0
  SameUsers s s' = keys s'.subscriptions ≡ keys s.subscriptions

  on_subscribe-SameUsers :
      (u t : String) (s : MqttUpdater c) → Post (SameUsers s) (on_subscribe c u t s)
  unfolding on_subscribe
  on_subscribe-SameUsers u t s = by_case (lookup u s.subscriptions) refl
    where
      by_case :
          (o : Option (List String))
          → lookup u s.subscriptions ≡ o
          → Post (SameUsers s) (elim o [
            | none ↦ panics
            | some topics ↦ do
              s' ←
                  send c
                    (Request.subscribe t)
                    (record s { subscriptions = insert u (topics ++ t ∷ []) s.subscriptions })
              returns (record s' {
                pending_subscriptions =
                    s'.pending_subscriptions ++ record { user = u; topic = t; id = none } ∷ [];
              })
          ])
      by_case none e = tt
      by_case (some topics) e =
          bind_rule (Subscribed c (insert u (topics ++ t ∷ []) s.subscriptions)) _ _ _
            (send-Subscribed c (Request.subscribe t)
              (record s { subscriptions = insert u (topics ++ t ∷ []) s.subscriptions }))
            (λ s' h. ap keys h ∙ keys-insert u (topics ++ t ∷ []) topics s.subscriptions e)

  keys-without_topic :
      (u t : String) (d : Dict String (List String)) → keys (without_topic c u t d) ≡ keys d
  keys-without_topic u t d = by_case (lookup u d) refl
    where
      by_case :
          (o : Option (List String))
          → lookup u d ≡ o
          → keys
              (elim o [ none ↦ d | some topics ↦ insert u (retain (λ x. not (x == t)) topics) d ])
            ≡ keys d
      by_case none e = refl
      by_case (some topics) e = keys-insert u (retain (λ x. not (x == t)) topics) topics d e

  on_unsubscribe-SameUsers :
      (u t : String) (s : MqttUpdater c) → Post (SameUsers s) (on_unsubscribe c u t s)
  unfolding on_unsubscribe
  on_unsubscribe-SameUsers u t s =
      let s' : MqttUpdater c = record s { subscriptions = without_topic c u t s.subscriptions } in
      Post-map {P = Subscribed c s'.subscriptions}
        (λ s'' h. ap keys h ∙ keys-without_topic u t s.subscriptions) _
        (if_rule (Subscribed c s'.subscriptions) (subscribed t s'.subscriptions) (returns s')
          (send c (Request.unsubscribe t) s') refl (send-Subscribed c (Request.unsubscribe t) s'))

  step-SameUsers : (event : Event) (s : MqttUpdater c) → Post (SameUsers s) (step c event s)
  unfolding step
  step-SameUsers (Event.incoming_publish t message) s = refl
  step-SameUsers (Event.incoming_sub_ack pkid) s =
      Post-map {P = Subscribed c s.subscriptions} (λ s' h. ap keys h) _
        (settle_pending-Subscribed c "" "" pkid (with_id pkid s.pending_subscriptions) s)
  step-SameUsers (Event.outgoing_subscribe pkid) s = refl
  step-SameUsers Event.other_packet s = refl
  step-SameUsers Event.connection_error s = tt
  step-SameUsers (Event.command (MqttQueueMessage.subscribe u t)) s = on_subscribe-SameUsers u t s
  step-SameUsers (Event.command (MqttQueueMessage.unsubscribe u t)) s =
      on_unsubscribe-SameUsers u t s

  run-SameUsers : (events : List Event) (s : MqttUpdater c) → Post (SameUsers s) (run c events s)
  unfolding run
  run-SameUsers [] s = refl
  run-SameUsers (event ∷ events) s =
      bind_rule (SameUsers s) (SameUsers s) (step c event s) _ (step-SameUsers event s) (λ s' h.
        Post-map {P = SameUsers s'} (λ s'' k. k ∙ h) (run c events s') (run-SameUsers events s'))

  both_hold :
      (P Q : MqttUpdater c → Type 0) (o : Outcome (MqttUpdater c))
      → Post P o
      → Post Q o
      → Post (λ s. P s × Q s) o
  both_hold P Q (returns s) p q = (p, q)
  both_hold P Q panics p q = tt
  both_hold P Q spins p q = tt

  -- For distinct users, after any events in which a new listener does not panic, a message on a
  -- topic is given to a user once if the user's last command on the topic was a subscription, and
  -- not at all if it was the end of one or there was none.
  pub run-delivers :
      (users : List String) (client : c.State) (events : List Event) (user topic : String)
      (message : Bytes)
      → Unique users
      → Post
          (λ s.
            Post
              (λ s'.
                to_user user s'.deliveries
                ≡ to_user user s.deliveries
                  ++ (if wants user topic false events
                      then record { username = user; topic = topic; message = message } ∷ []
                      else []))
              (step c (Event.incoming_publish topic message) s))
          (run c events (new c users client))
  unfolding step new
  run-delivers users client events user topic message unique =
      Post-map
        (λ s (heard, same).
          retain-append (λ delivery. delivery.username == user) s.deliveries
            (deliver_to_users topic message s.subscriptions)
          ∙ ap (λ rest. to_user user s.deliveries ++ rest)
              (deliver-listens user topic message s.subscriptions
                  (subst Unique (sym (same ∙ keys-map users)) unique)
                ∙ ap (λ b. if b then one user topic message else [])
                    (heard ∙ ap (λ b. wants user topic b events) (listens-map user topic users))))
        (run c events (new c users client))
        (both_hold _ _ (run c events (new c users client))
          (run-listens c user topic events (new c users client))
          (run-SameUsers events (new c users client)))
