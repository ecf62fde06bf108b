-- ===== src/Gossip/Tests.antt =====
-- The listener on a swarm that counts its calls.
use mls_experimental_analysi.Base.{
  ℕ, suc, ◌+◌, ◌≤◌, nat_eq, true, false, none, some, List, [], ◌∷◌, ◌≡◌, refl, arith, Post, returns,
  ok,
}
use mls_experimental_analysi.Base.Dict.{lookup}
use mls_experimental_analysi.Config.{Directory}
use mls_experimental_analysi.DsLib.Sample.{tls}
use mls_experimental_analysi.Gossip.{
  GossipSubQueueMessage, Swarm, Event, command, query_progressed, found_record, GossipSubUpdater,
}
use mls_experimental_analysi.Gossip.Listener.{run}
use mls_experimental_analysi.Gossip.Counts.{answered, waiting}
use mls_experimental_analysi.Gossip.Answers.{run-AnswersOnce}
use mls_experimental_analysi.Gossip.Records.{two_takers}

abbrev swarm : Swarm
swarm = record {
  State = ℕ;
  Peer = ℕ;
  Address = ℕ;
  Cookie = ℕ;
  publish = λ topic bytes n. suc n;
  subscribe = λ topic n. some (suc n);
  unsubscribe = λ topic n. suc n;
  add_explicit_peer = λ peer n. suc n;
  put_record = λ key bytes n. some (suc n);
  get_record = λ key n. (suc n, n);
  store_put = λ key bytes n. some (suc n);
  add_address = λ peer address n. suc n;
  show_key = λ key. key;
  add_external_address = λ address n. suc n;
  register = λ ttl n. some (suc n);
  discover = λ cookie n. suc n;
}

abbrev start : GossipSubUpdater swarm
start = record {
  subscriptions = ("bob", []) ∷ [];
  pending_get_requests = [];
  directory = Directory.kademlia;
  swarm = 7;
  added_address = false;
  connected_to_rendezvous = false;
  registered = false;
  cookie = none;
  deliveries = [];
  answers = [];
}

-- One request on channel 3, and two results of its query.
abbrev events : List (Event swarm)
events =
    command (GossipSubQueueMessage.get "group_info/club" 3 true)
    ∷ query_progressed 7 (found_record "group_info/club" (5 ∷ []))
    ∷ query_progressed 7 (found_record "group_info/club" (5 ∷ []))
    ∷ []

run-AnswersOnce_example :
    Post (λ s. answered 3 s.answers + waiting 3 s.pending_get_requests ≤ 1) (run tls events start)
run-AnswersOnce_example = run-AnswersOnce 3 tls events start

abbrev both_wait : GossipSubUpdater swarm
both_wait = record start { pending_get_requests = (1, (3, true)) ∷ (2, (4, true)) ∷ [] }

two_takers_example :
    (s' : GossipSubUpdater swarm) × (run tls
        (query_progressed 1 (found_record "group_info/club" (5 ∷ []))
          ∷ query_progressed 2 (found_record "group_info/club" (5 ∷ []))
          ∷ [])
        both_wait
      ≡ returns s')
    × (s'.answers ≡ (3, ok (5 ∷ [])) ∷ (4, ok (5 ∷ [])) ∷ [])
unfolding lookup
two_takers_example =
    two_takers tls 1 2 3 4 "group_info/club" (5 ∷ []) (5 ∷ []) both_wait (omega arith) refl refl
      (λ n. (suc n, refl))
