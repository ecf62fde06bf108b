-- ===== src/Gossip/Turns.antt =====
-- What the parts of a turn of the listener in emulated_client/src/pubsub/gossipsub_updater.rs do to
-- the answers and the waiting queries of a channel.
use mls_experimental_analysi.Base.{
  ℕ, ◌+◌, ◌≤◌, String, string_eq, nat_eq, append, Bytes, Bool, true, false, not, ◌&&◌, ◌==◌,
  if_rule, List, [], ◌∷◌, ◌++◌, retain, Option, none, some, ◌≡◌, refl, arith, Outcome, returns,
  panics, spins, ◌>>=◌, Post, bind_rule, Result, ok, err,
}
use mls_experimental_analysi.Base.Dict.{lookup, insert, erase}
use mls_experimental_analysi.Config.{Directory}
use mls_experimental_analysi.Gossip.{
  Swarm, QueryResult, found_record, other_record, get_error, other_result, GossipSubUpdater,
}
use mls_experimental_analysi.Gossip.Listener.{
  unwrap, add_topic, drop_topic, request_record, settle_query, on_query, register, if_kademlia,
  answer, announce,
}
use mls_experimental_analysi.Gossip.Counts.{
  one, answered, waiting, answered-append, waiting-insert, waiting-erase,
}

module _ (channel : ℕ) where
  module _ {w : Swarm} where
    abbrev pub total : GossipSubUpdater w → ℕ
    total s = answered channel s.answers + waiting channel s.pending_get_requests

    abbrev pub AtMost : ℕ → Outcome (GossipSubUpdater w) → Type 0
    AtMost n = Post (λ s. total s ≤ n)

    pub weaken : (m n : ℕ) (o : Outcome (GossipSubUpdater w)) → m ≤ n → AtMost m o → AtMost n o
    weaken m n (returns s) le h = omega arith
    weaken m n panics le h = tt
    weaken m n spins le h = tt

    -- Where nothing is asked for.
    pub silent : (n : ℕ) (o : Outcome (GossipSubUpdater w)) → AtMost n o → AtMost (0 + n) o
    silent n o h = weaken n (0 + n) o (omega arith) h

    pub bind-AtMost :
        (n : ℕ) (x : Outcome (GossipSubUpdater w))
        (k : GossipSubUpdater w → Outcome (GossipSubUpdater w))
        → AtMost n x
        → ((s : GossipSubUpdater w) → AtMost (total s) (k s))
        → AtMost n (x >>= k)
    bind-AtMost n x k hx hk =
        bind_rule (λ s. total s ≤ n) (λ s. total s ≤ n) x k hx
          (λ s le. weaken (total s) n (k s) le (hk s))

    pub unwrap-AtMost :
        (o : Option w.State) (s : GossipSubUpdater w) → AtMost (total s) (unwrap o s)
    unwrap-AtMost none s = tt
    unwrap-AtMost (some swarm) s = omega arith

    pub add_topic-AtMost :
        (user topic : String) (s : GossipSubUpdater w) → AtMost (total s) (add_topic user topic s)
    add_topic-AtMost user topic s = by_case (lookup user s.subscriptions)
      where
        by_case :
            (o : Option (List String))
            → AtMost (total s) (elim o as (λ _. Outcome (GossipSubUpdater w)) [
              | none ↦ panics
              | some topics ↦
                  returns (record s {
                    subscriptions = insert user (topics ++ topic ∷ []) s.subscriptions;
                  })
            ])
        by_case none = tt
        by_case (some topics) = omega arith

    pub drop_topic-AtMost :
        (user topic : String) (s : GossipSubUpdater w) → AtMost (total s) (drop_topic user topic s)
    drop_topic-AtMost user topic s = by_case (lookup user s.subscriptions)
      where
        by_case :
            (o : Option (List String))
            → AtMost (total s) (elim o as (λ _. Outcome (GossipSubUpdater w)) [
              | none ↦ panics
              | some topics ↦ returns (record s {
                subscriptions = insert user (retain (λ t. not (t == topic)) topics) s.subscriptions;
              })
            ])
        by_case none = tt
        by_case (some topics) = omega arith

    pub announce-AtMost :
        (topic group_name : String) (o : Option Bytes) (s : GossipSubUpdater w)
        → AtMost (total s) (announce topic group_name o s)
    announce-AtMost topic group_name none s = tt
    announce-AtMost topic group_name (some bytes) s = omega arith

    pub request_record-AtMost :
        (key : String) (c : ℕ) (remove : Bool) (s : GossipSubUpdater w)
        → AtMost (one channel c + total s) (request_record key c remove s)
    request_record-AtMost key c remove s = by_case s.directory
      where
        by_case :
            (directory : Directory)
            → AtMost (one channel c + total s) (
                if_kademlia directory
                  (returns (record s {
                    swarm = (w.get_record key s.swarm).0;
                    pending_get_requests =
                        insert (w.get_record key s.swarm).1 (c, remove) s.pending_get_requests;
                  }))
                  (returns (answer c (err "Directory was not configured as Kademlia") s)))
        by_case Directory.server = omega (
          arith,
          answered-append channel s.answers
              ((c, err "Directory was not configured as Kademlia") ∷ []),
        )
        by_case Directory.kademlia = omega (
          arith,
          waiting-insert channel (w.get_record key s.swarm).1 c remove s.pending_get_requests,
        )

    answer-total :
        (c : ℕ) (result : Result Bytes) (s : GossipSubUpdater w)
        → total (answer c result s) ≡ one channel c + total s
    answer-total c result s = omega (arith, answered-append channel s.answers ((c, result) ∷ []))

    settle_query-AtMost :
        (c : ℕ) (remove : Bool) (result : QueryResult) (s : GossipSubUpdater w)
        → AtMost (one channel c + total s) (settle_query c remove result s)
    unfolding settle_query
    settle_query-AtMost c false (found_record key value) s =
        omega (arith, answer-total c (ok value) s)
    settle_query-AtMost c true (found_record key []) s =
        omega (arith, answer-total c (err (append "Error 403 for " (w.show_key key))) s)
    settle_query-AtMost c true (found_record key (byte ∷ value)) s =
        bind_rule (λ s'. total s' ≤ total s) _ _ _ (unwrap-AtMost (w.put_record key [] s.swarm) s)
          (λ s' le. omega (arith, answer-total c (ok (byte ∷ value)) s'))
    settle_query-AtMost c false (other_record text) s =
        omega (arith, answer-total c (err (append "Record not found: " text)) s)
    settle_query-AtMost c true (other_record text) s =
        omega (arith, answer-total c (err (append "Record not found: " text)) s)
    settle_query-AtMost c false (get_error text) s =
        omega (arith, answer-total c (err (append "Error getting record: " text)) s)
    settle_query-AtMost c true (get_error text) s =
        omega (arith, answer-total c (err (append "Error getting record: " text)) s)
    settle_query-AtMost c false other_result s = omega arith
    settle_query-AtMost c true other_result s = omega arith

    pub on_query-AtMost :
        (id : ℕ) (result : QueryResult) (s : GossipSubUpdater w)
        → AtMost (total s) (on_query id result s)
    unfolding on_query
    on_query-AtMost id result s = by_case (lookup id s.pending_get_requests) refl
      where
        by_case :
            (o : Option (ℕ × Bool))
            → lookup id s.pending_get_requests ≡ o
            → AtMost (total s) (elim o [
              | none ↦ returns s
              | some (c, remove) ↦
                  settle_query c remove result
                    (record s { pending_get_requests = erase id s.pending_get_requests })
            ])
        by_case none e = omega arith
        by_case (some (c, remove)) e =
            let s' : GossipSubUpdater w = record s {
              pending_get_requests = erase id s.pending_get_requests;
            } in
            weaken (one channel c + total s') (total s) _
              (omega (arith, waiting-erase channel id c remove s.pending_get_requests e))
              (settle_query-AtMost c remove result s')

    pub register-AtMost :
        (ttl : Option ℕ) (s : GossipSubUpdater w) → AtMost (total s) (register ttl s)
    register-AtMost ttl s =
        if_rule (λ s'. total s' ≤ total s)
          ((s.added_address && s.connected_to_rendezvous) && not s.registered) _ (returns s)
          (unwrap-AtMost (w.register ttl s.swarm) (record s { registered = true })) (omega arith)
