-- ===== src/Gossip/Records.antt =====
-- Taking a record in the listener of emulated_client/src/pubsub/gossipsub_updater.rs.
use mathlib.Core.List.{append_assoc}
use mls_experimental_analysi.Base.{
  ℕ, String, nat_eq, append, Bytes, true, [], ◌∷◌, ◌++◌, some, ◌≡◌, ◌≢◌, refl, ◌∙◌, ==-ne, returns,
  Result, ok, err,
}
use mls_experimental_analysi.Base.Dict.{lookup, erase, lookup-erase}
use mls_experimental_analysi.DsLib.{Mls}
use mls_experimental_analysi.DsLib.Codec.{Tls}
use mls_experimental_analysi.Gossip.{Swarm, found_record, query_progressed, GossipSubUpdater}
use mls_experimental_analysi.Gossip.Listener.{step, run, on_query, settle_query}

-- What a request that takes is answered with.
abbrev pub taken : Swarm → String → Bytes → Result Bytes
taken w key [] = err (append "Error 403 for " (w.show_key key))
taken w key (byte ∷ value) = ok (byte ∷ value)

module _ {w : Swarm} {m : Mls} (tls : Tls m) where
  -- The listener after an answer to the query.
  abbrev settled : ℕ → ℕ → Result Bytes → w.State → GossipSubUpdater w → GossipSubUpdater w
  settled id channel result swarm s = record s {
    pending_get_requests = erase id s.pending_get_requests;
    swarm = swarm;
    answers = s.answers ++ (channel, result) ∷ [];
  }

  on_query-takes :
      (id channel : ℕ) (key : String) (value : Bytes) (swarm : w.State) (s : GossipSubUpdater w)
      → lookup id s.pending_get_requests ≡ some (channel, true)
      → w.put_record key [] s.swarm ≡ some swarm
      → (swarm' : w.State) × (on_query id (found_record key value) s
          ≡ returns (settled id channel (taken w key value) swarm' s))
  unfolding on_query settle_query
  on_query-takes id channel key [] swarm s waits put = (s.swarm, rw (on_query, waits) refl)
  on_query-takes id channel key (byte ∷ value) swarm s waits put =
      (swarm, rw (on_query, waits, put) refl)

  -- If two queries of the gossipsub listener wait that both take a record, and records can be
  -- stored, then when results for the two arrive, each is answered from the record that it found
  -- itself: where both found the group info before either emptied it, both requests get it.
  pub two_takers :
      (first second a b : ℕ) (key : String) (value later : Bytes) (s : GossipSubUpdater w)
      → first ≢ second
      → lookup first s.pending_get_requests ≡ some (a, true)
      → lookup second s.pending_get_requests ≡ some (b, true)
      → ((swarm : w.State) → (swarm' : w.State) × (w.put_record key [] swarm ≡ some swarm'))
      → (s' : GossipSubUpdater w) × (run tls
            (query_progressed first (found_record key value)
              ∷ query_progressed second (found_record key later)
              ∷ [])
            s
          ≡ returns s')
        × (s'.answers ≡ s.answers ++ ((a, taken w key value) ∷ (b, taken w key later) ∷ []))
  unfolding run step
  two_takers first second a b key value later s other one two puts =
      let (swarm, put) = puts s.swarm in
      let (swarm', e) = on_query-takes first a key value swarm s one put in
      let s' = settled first a (taken w key value) swarm' s in
      let (swarm'', put') = puts swarm' in
      let still : lookup second s'.pending_get_requests ≡ some (b, true) =
        lookup-erase first second s.pending_get_requests ∙ rw (==-ne other) two in
      let (final, e') = on_query-takes second b key later swarm'' s' still put' in
      (
        settled second b (taken w key later) final s',
        rw (e, e') refl,
        append_assoc s.answers ((a, taken w key value) ∷ []) ((b, taken w key later) ∷ []),
      )
