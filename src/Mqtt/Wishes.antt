-- ===== src/Mqtt/Wishes.antt =====
-- Which topics the users of emulated_client/src/pubsub/mqtt_updater.rs are subscribed to.
use text.Mathlib.Text.{starts_with}
use mls_experimental_analysi.Base.{
  ℕ, String, string_eq, Bool, true, false, not, ◌&&◌, ◌==◌, ==_iff, if◌then◌else◌, if_rule, List,
  [], ◌∷◌, ◌++◌, retain, contains, Option, none, some, ◌≡◌, refl, ap, ◌∙◌, arith, Outcome, returns,
  panics, ◌>>=◌, Post, Post-map, bind_rule,
}
use mls_experimental_analysi.Base.Dict.{Dict, lookup, insert, lookup-insert}
use mls_experimental_analysi.Mqtt.{
  MqttQueueMessage, Request, Event, Client, Pending, MqttUpdater, with_id, send, settle_pending,
  on_subscribe, on_unsubscribe, step, run, without_topic, subscribed, group_ack, has_id,
}

abbrev pub has_topic : String → Option (List String) → Bool
has_topic topic none = false
has_topic topic (some topics) = contains topics topic

-- Whether a message on the topic goes to the user.
abbrev pub listens : String → String → Dict String (List String) → Bool
listens user topic d = has_topic topic (lookup user d)

-- What the user wants of the topic, by its last command on it.
abbrev pub wants : String → String → Bool → List Event → Bool
wants user topic before [] = before
wants user topic before (Event.command (MqttQueueMessage.subscribe u t) ∷ events) =
    wants user topic (if u == user && t == topic then true else before) events
wants user topic before (Event.command (MqttQueueMessage.unsubscribe u t) ∷ events) =
    wants user topic (if u == user && t == topic then false else before) events
wants user topic before (_ ∷ events) = wants user topic before events

contains-append :
    (topics : List String) (t topic : String)
    → contains (topics ++ t ∷ []) topic ≡ (if t == topic then true else contains topics topic)
contains-append [] t topic = ground (arith, ==_iff t topic)
contains-append (x ∷ topics) t topic =
    ground (arith, contains-append topics t topic, ==_iff t topic, ==_iff x topic)

contains-retain :
    (topics : List String) (t topic : String)
    → contains (retain (λ x. not (x == t)) topics) topic
      ≡ (if t == topic then false else contains topics topic)
contains-retain [] t topic = ground arith
contains-retain (x ∷ topics) t topic =
    ground (arith, contains-retain topics t topic, ==_iff t topic, ==_iff x topic, ==_iff x t)

listens-subscribe :
    (u t user topic : String) (topics : List String) (d : Dict String (List String))
    → lookup u d ≡ some topics
    → listens user topic (insert u (topics ++ t ∷ []) d)
      ≡ (if u == user && t == topic then true else listens user topic d)
listens-subscribe u t user topic topics d known = ground (
  arith,
  lookup-insert u user (topics ++ t ∷ []) d,
  contains-append topics t topic,
  ==_iff u user,
)

wants-cons :
    (user topic : String) (before : Bool) (event : Event) (events : List Event)
    → wants user topic (wants user topic before (event ∷ [])) events
      ≡ wants user topic before (event ∷ events)
wants-cons user topic before (Event.incoming_publish t message) events = refl
wants-cons user topic before (Event.incoming_sub_ack pkid) events = refl
wants-cons user topic before (Event.outgoing_subscribe pkid) events = refl
wants-cons user topic before Event.other_packet events = refl
wants-cons user topic before Event.connection_error events = refl
wants-cons user topic before (Event.command (MqttQueueMessage.subscribe u t)) events = refl
wants-cons user topic before (Event.command (MqttQueueMessage.unsubscribe u t)) events = refl

module _ (c : Client) where
  listens-unsubscribe :
      (u t user topic : String) (d : Dict String (List String))
      → listens user topic (without_topic c u t d)
        ≡ (if u == user && t == topic then false else listens user topic d)
  listens-unsubscribe u t user topic d = by_case (lookup u d) refl
    where
      by_case :
          (o : Option (List String))
          → lookup u d ≡ o
          → listens user topic
              (elim o [ none ↦ d | some topics ↦ insert u (retain (λ x. not (x == t)) topics) d ])
            ≡ (if u == user && t == topic then false else listens user topic d)
      by_case none e = ground (arith, ==_iff u user)
      by_case (some topics) e = ground (
        arith,
        lookup-insert u user (retain (λ x. not (x == t)) topics) d,
        contains-retain topics t topic,
        ==_iff u user,
      )

  abbrev pub Subscribed : Dict String (List String) → MqttUpdater c → Type 0
  Subscribed d s = s.subscriptions ≡ d

  pub send-Subscribed :
      (request : Request) (s : MqttUpdater c) → Post (Subscribed s.subscriptions) (send c request s)
  send-Subscribed request s = by_case (c.call request s.client)
    where
      by_case :
          (o : Option c.State)
          → Post (Subscribed s.subscriptions) (elim o as (λ _. Outcome (MqttUpdater c)) [
            | none ↦ panics
            | some client ↦ returns (record s { client = client })
          ])
      by_case none = tt
      by_case (some client) = refl

  module _ (user topic : String) where
    abbrev AsWanted : Event → MqttUpdater c → Outcome (MqttUpdater c) → Type 0
    AsWanted event s = Post (λ s'.
        listens user topic s'.subscriptions
        ≡ wants user topic (listens user topic s.subscriptions) (event ∷ []))

    pub settle_pending-Subscribed :
        (pkid : ℕ) (o : Option Pending) (s : MqttUpdater c)
        → Post (Subscribed s.subscriptions) (settle_pending c pkid o s)
    settle_pending-Subscribed pkid none s = refl
    settle_pending-Subscribed pkid (some p) s =
        let s' : MqttUpdater c = record s {
          pending_subscriptions = retain (λ q. not (has_id pkid q)) s.pending_subscriptions;
        } in
        if_rule (Subscribed s.subscriptions) (starts_with p.topic "cgka/group/")
          (send c (group_ack p) s') (returns s') (send-Subscribed (group_ack p) s') refl

    on_subscribe-AsWanted :
        (u t : String) (s : MqttUpdater c)
        → AsWanted (Event.command (MqttQueueMessage.subscribe u t)) s (on_subscribe c u t s)
    unfolding on_subscribe
    on_subscribe-AsWanted u t s = by_case (lookup u s.subscriptions) refl
      where
        by_case :
            (o : Option (List String))
            → lookup u s.subscriptions ≡ o
            → AsWanted (Event.command (MqttQueueMessage.subscribe u t)) s (elim o [
              | none ↦ panics
              | some topics ↦ do
                s' ←
                    send c
                      (Request.subscribe t)
                      (record s { subscriptions = insert u (topics ++ t ∷ []) s.subscriptions })
                returns (record s' {
                  pending_subscriptions =
                      s'.pending_subscriptions ++ record { user = u; topic = t; id = none } ∷ [];
                })
            ])
        by_case none e = tt
        by_case (some topics) e =
            bind_rule (Subscribed (insert u (topics ++ t ∷ []) s.subscriptions)) _ _ _
              (send-Subscribed (Request.subscribe t)
                (record s { subscriptions = insert u (topics ++ t ∷ []) s.subscriptions }))
              (λ s' h.
                ap (listens user topic) h
                ∙ listens-subscribe u t user topic topics s.subscriptions e)

    on_unsubscribe-AsWanted :
        (u t : String) (s : MqttUpdater c)
        → AsWanted (Event.command (MqttQueueMessage.unsubscribe u t)) s (on_unsubscribe c u t s)
    unfolding on_unsubscribe
    on_unsubscribe-AsWanted u t s =
        let s' : MqttUpdater c = record s { subscriptions = without_topic c u t s.subscriptions } in
        Post-map {P = Subscribed s'.subscriptions}
          (λ s'' h. ap (listens user topic) h ∙ listens-unsubscribe u t user topic s.subscriptions)
          _
          (if_rule (Subscribed s'.subscriptions) (subscribed t s'.subscriptions) (returns s')
            (send c (Request.unsubscribe t) s') refl (send-Subscribed (Request.unsubscribe t) s'))

    step-AsWanted : (event : Event) (s : MqttUpdater c) → AsWanted event s (step c event s)
    unfolding step
    step-AsWanted (Event.incoming_publish t message) s = refl
    step-AsWanted (Event.incoming_sub_ack pkid) s =
        Post-map {P = Subscribed s.subscriptions} (λ s' h. ap (listens user topic) h) _
          (settle_pending-Subscribed pkid (with_id pkid s.pending_subscriptions) s)
    step-AsWanted (Event.outgoing_subscribe pkid) s = refl
    step-AsWanted Event.other_packet s = refl
    step-AsWanted Event.connection_error s = tt
    step-AsWanted (Event.command (MqttQueueMessage.subscribe u t)) s = on_subscribe-AsWanted u t s
    step-AsWanted (Event.command (MqttQueueMessage.unsubscribe u t)) s =
        on_unsubscribe-AsWanted u t s

    -- Over any events in which the listener does not panic, whether a message on a topic goes to a
    -- user is what the user's last subscription to the topic or unsubscription from it says, and as
    -- before where there is none.
    pub run-listens :
        (events : List Event) (s : MqttUpdater c)
        → Post
            (λ s'.
              listens user topic s'.subscriptions
              ≡ wants user topic (listens user topic s.subscriptions) events)
            (run c events s)
    unfolding run
    run-listens [] s = refl
    run-listens (event ∷ events) s =
        bind_rule
          (λ s'.
            listens user topic s'.subscriptions
            ≡ wants user topic (listens user topic s.subscriptions) (event ∷ []))
          _ (step c event s) _ (step-AsWanted event s)
          (λ s' h.
            Post-map
              {Q = λ s''.
                listens user topic s''.subscriptions
                ≡ wants user topic (listens user topic s.subscriptions) (event ∷ events)}
              (λ s'' k.
                k ∙ ap (λ b. wants user topic b events) h ∙ wants-cons user topic _ event events)
              (run c events s') (run-listens events s'))
