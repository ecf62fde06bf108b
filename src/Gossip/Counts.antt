-- ===== src/Gossip/Counts.antt =====
-- The answers and the waiting queries of a channel in the listener of
-- emulated_client/src/pubsub/gossipsub_updater.rs, as numbers.
use mls_experimental_analysi.Base.{
  ℕ, ◌+◌, ◌≤◌, string_eq, nat_eq, Bytes, Bool, ◌==◌, if◌then◌else◌, List, [], ◌∷◌, ◌++◌, some, ◌≡◌,
  arith, Result,
}
use mls_experimental_analysi.Base.Dict.{Dict, lookup, insert, erase}
use mls_experimental_analysi.Gossip.{GossipSubQueueMessage, Swarm, Event, command}

module _ (channel : ℕ) where
  abbrev pub one : ℕ → ℕ
  one c = if c == channel then 1 else 0

  -- The answers on the channel.
  abbrev pub answered : List (ℕ × Result Bytes) → ℕ
  answered [] = 0
  answered ((c, result) ∷ answers) = one c + answered answers

  -- The queries that wait for an answer on the channel.
  abbrev pub waiting : Dict ℕ (ℕ × Bool) → ℕ
  waiting [] = 0
  waiting ((id, (c, remove)) ∷ pending) = one c + waiting pending

  abbrev pub asks_of : {w : Swarm} → Event w → ℕ
  asks_of (command (GossipSubQueueMessage.get key c remove)) = one c
  asks_of (command (GossipSubQueueMessage.peek key c)) = one c
  asks_of _ = 0

  -- How often an answer on the channel is asked for.
  abbrev pub asks : {w : Swarm} → List (Event w) → ℕ
  asks [] = 0
  asks (event ∷ events) = asks_of event + asks events

  pub answered-append :
      (xs ys : List (ℕ × Result Bytes)) → answered (xs ++ ys) ≡ answered xs + answered ys
  answered-append [] ys = omega arith
  answered-append ((c, result) ∷ xs) ys = omega (arith, answered-append xs ys)

  pub waiting-insert :
      (id c : ℕ) (remove : Bool) (d : Dict ℕ (ℕ × Bool))
      → waiting (insert id (c, remove) d) ≤ one c + waiting d
  unfolding insert
  waiting-insert id c remove [] = omega arith
  waiting-insert id c remove ((j, (e, r)) ∷ d) = ground (arith, waiting-insert id c remove d)

  waiting-erase-le : (id : ℕ) (d : Dict ℕ (ℕ × Bool)) → waiting (erase id d) ≤ waiting d
  unfolding erase
  waiting-erase-le id [] = omega arith
  waiting-erase-le id ((j, (e, r)) ∷ d) = ground (arith, waiting-erase-le id d)

  pub waiting-erase :
      (id c : ℕ) (remove : Bool) (d : Dict ℕ (ℕ × Bool))
      → lookup id d ≡ some (c, remove)
      → one c + waiting (erase id d) ≤ waiting d
  unfolding lookup erase
  waiting-erase id c remove [] h = ground arith
  waiting-erase id c remove ((j, (e, r)) ∷ d) h =
      ground (arith, waiting-erase id c remove d, waiting-erase-le id d)
