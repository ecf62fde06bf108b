-- ===== src/Orchestrator/Tests.antt =====
-- A counter as the generator, and the theorems about orchestrator.rs at concrete groups.
use mls_experimental_analysi.Base.{
  ℕ, zero, suc, ◌+◌, ◌-◌, ◌%◌, ◌≤◌, ◌<◌, ◌≡◌, refl, ◌∙◌, ◌≢◌, ==_iff, string_eq, inr, String, List,
  [], ◌∷◌, ◌&&◌, not, arith, Bytes, contains, returns, spins, true, false, length, ◌⊎◌,
}
use mls_experimental_analysi.Config.{OrchestratedParameters, AuthorizationPolicy}
use mls_experimental_analysi.Rng.{Rng}
use mls_experimental_analysi.Orchestrator.{
  Orchestrator, NextAction, process_commit, remove_members, place_all, elect, active_count,
}
use mls_experimental_analysi.Orchestrator.Slots.{Distinct}
use mls_experimental_analysi.Orchestrator.Placement.{Ordered}
use mls_experimental_analysi.Orchestrator.Safety.{WellFormed, Fresh, Kept, Keeps}
use mls_experimental_analysi.Orchestrator.Reroll.{draw_at, DrawsAll}
use mls_experimental_analysi.Orchestrator.Commit.{process_commit-Keeps, process_commit-returns}
use mls_experimental_analysi.Orchestrator.Election.{
  known_members_agree, at_most_one_committer, others_listen,
}
use mls_experimental_analysi.Orchestrator.Winner.{at_client, CommitsNext, some_client_acts}
use mls_experimental_analysi.Orchestrator.Policies.{last_policy_spins}
use mls_experimental_analysi.Orchestrator.Removal.{NoRepeat-Distinct, remove_members_lem}

abbrev first_byte : Bytes → ℕ
first_byte [] = 0
first_byte (b ∷ bs) = b

counter_bounds : (s lo hi : ℕ) → lo < hi → (lo ≤ lo + s % (hi - lo)) × (lo + s % (hi - lo) < hi)
counter_bounds s lo hi h = grind arith

abbrev counter : Rng
counter = record {
  State = ℕ;
  from_seed = first_byte;
  draw = λ s lo hi. (lo + s % (hi - lo), s + 1);
  draw_bounds = counter_bounds;
}

counter-draw_at : (k n s : ℕ) → draw_at counter k n s ≡ (s + k) % n
unfolding draw_at
counter-draw_at zero n s =
    let whole : n - 0 ≡ n = omega arith in
    let start : s + 0 ≡ s = omega arith in rw (whole, start) (omega arith)
counter-draw_at (suc k) n s =
    let later : s + 1 + k ≡ s + suc k = omega arith in rw (← later) (counter-draw_at k n (s + 1))

counter_hits : (s n i : ℕ) → i < n → (s + (i + n - s % n)) % n ≡ i
counter_hits s n i h = grind arith

counter-DrawsAll : (n s : ℕ) → DrawsAll counter n s
counter-DrawsAll n s i h =
    (i + n - s % n, counter-draw_at (i + n - s % n) n s ∙ counter_hits s n i h)

abbrev params : AuthorizationPolicy → ℕ → ℕ → OrchestratedParameters
params policy committers processers = record {
  max_active_committers = committers;
  max_active_processers = processers;
  auth_policy = policy;
}

-- `alice` and `bob` in three slots, two of them the committers'.
abbrev pair : String → AuthorizationPolicy → Orchestrator
pair name policy = record {
  name = name;
  pending_acks = 0;
  parameters = params policy 2 3;
  known_members = "alice" ∷ "bob" ∷ "" ∷ [];
}

abbrev seed : Bytes
seed = 1 ∷ []

pair-join :
    process_commit counter 5 (pair "alice" AuthorizationPolicy.random) seed 3 ("carol" ∷ [])
    ≡ returns (
      record (pair "alice" AuthorizationPolicy.random) {
        known_members = "alice" ∷ "carol" ∷ "bob" ∷ [];
        pending_acks = 1;
      },
      NextAction.listen,
    )
unfolding process_commit
pair-join = refl

alice_named : ◌≢◌ {A = String} "alice" ""
alice_named = ground (arith, ==_iff {A = String} "alice" "")

bob_named : ◌≢◌ {A = String} "bob" ""
bob_named = ground (arith, ==_iff {A = String} "bob" "")

carol_named : ◌≢◌ {A = String} "carol" ""
carol_named = ground (arith, ==_iff {A = String} "carol" "")

dave_named : ◌≢◌ {A = String} "dave" ""
dave_named = ground (arith, ==_iff {A = String} "dave" "")

pair-Distinct : Distinct ("alice" ∷ "bob" ∷ "" ∷ [])
pair-Distinct =
    NoRepeat-Distinct ("alice" ∷ "bob" ∷ "" ∷ []) ((λ _. refl), ((λ _. refl), ((λ _. refl), tt)))

pair-Ordered : Ordered 2 3 ("alice" ∷ "bob" ∷ "" ∷ [])
pair-Ordered = record {
  sized = refl;
  filled = (alice_named, (bob_named, (refl, tt)));
  distinct = pair-Distinct;
}

pair-WellFormed : (name : String) (policy : AuthorizationPolicy) → WellFormed (pair name policy)
unfolding active_count
pair-WellFormed name policy = record {
  usable = record { some_committer = omega arith; fits = omega arith };
  ordered = pair-Ordered;
}

carol_Fresh : Fresh ("carol" ∷ []) ("alice" ∷ "bob" ∷ "" ∷ [])
carol_Fresh = (carol_named, refl, refl, tt)

two_Fresh : Fresh ("carol" ∷ "dave" ∷ []) ("alice" ∷ "bob" ∷ "" ∷ [])
two_Fresh = (carol_named, refl, refl, (dave_named, refl, refl, tt))

abbrev alice : Orchestrator
alice = pair "alice" AuthorizationPolicy.random

dan_named : ◌≢◌ {A = String} "dan" ""
dan_named = ground (arith, ==_iff {A = String} "dan" "")

-- Three in five slots, each of three a candidate, when `carol` and `dave` are added.
abbrev three : Orchestrator
three = record {
  name = "alice";
  pending_acks = 0;
  parameters = params AuthorizationPolicy.random 3 5;
  known_members = "alice" ∷ "bob" ∷ "dan" ∷ "" ∷ "" ∷ [];
}

three-WellFormed : WellFormed three
unfolding active_count
three-WellFormed = record {
  usable = record { some_committer = omega arith; fits = omega arith };
  ordered = record {
    sized = refl;
    filled = (alice_named, (bob_named, (dan_named, (refl, (refl, tt)))));
    distinct =
        NoRepeat-Distinct ("alice" ∷ "bob" ∷ "dan" ∷ "" ∷ "" ∷ [])
          ((λ _. refl), ((λ _. refl), ((λ _. refl), ((λ e. absurd (e refl)), ((λ _. refl), tt)))));
  };
}

-- With seed 4 the first draw is a new member's slot.
three-again : process_commit counter 1 three (4 ∷ []) 5 ("carol" ∷ "dave" ∷ []) ≡ spins
unfolding process_commit
three-again = refl

process_commit-returns_example :
    (bound : ℕ) × ((fuel : ℕ)
      → bound ≤ fuel
      → (q : Orchestrator × NextAction) × (process_commit counter fuel three
            (4 ∷ [])
            5
            ("carol" ∷ "dave" ∷ [])
          ≡ returns q)
        × Kept three q)
process_commit-returns_example =
    process_commit-returns counter three (4 ∷ []) 5 ("carol" ∷ "dave" ∷ []) three-WellFormed
      (omega arith) (carol_named, refl, refl, (dave_named, refl, refl, tt)) (inr (omega arith))
      (λ known s e several. counter-DrawsAll 3 s)

process_commit-Keeps_example :
    Keeps alice (process_commit counter 9 alice seed 4 ("carol" ∷ "dave" ∷ []))
process_commit-Keeps_example =
    process_commit-Keeps counter 9 alice seed 4 ("carol" ∷ "dave" ∷ [])
      (pair-WellFormed "alice" AuthorizationPolicy.random) (omega arith) two_Fresh

-- A commit that adds nobody: the draw of seed 0 is slot 0, of seed 1 slot 1.
abbrev chosen : Orchestrator × NextAction
chosen = (alice, NextAction.commit)

known_members_agree_example :
    ◌≡◌ {A = List String} ("alice" ∷ "bob" ∷ "" ∷ []) ("alice" ∷ "bob" ∷ "" ∷ [])
unfolding process_commit
known_members_agree_example =
    known_members_agree counter 1 2 alice (pair "bob" AuthorizationPolicy.random) [] 2 [] chosen
      (pair "bob" AuthorizationPolicy.random, NextAction.listen) (refl, refl) refl refl

at_most_one_committer_example : ◌≡◌ {A = String} "alice" "alice"
unfolding process_commit
at_most_one_committer_example =
    at_most_one_committer counter 1 2 alice (record alice { pending_acks = 7 }) [] 2 [] chosen
      chosen (refl, refl) refl refl refl refl

others_listen_example :
    (q : Orchestrator × NextAction) × (process_commit counter 5 alice seed 2 [] ≡ returns q)
    × (q.1 ≢ NextAction.commit)
    × (q.0.pending_acks ≡ 0)
unfolding place_all elect
others_listen_example =
    others_listen counter 5 alice seed 2 [] ("alice" ∷ "bob" ∷ "" ∷ []) 1 1 refl refl
      (λ e. ground (arith, ==_iff {A = String} "alice" "bob"))

-- `alice`, the only committer, adds `carol` and `dave` in one commit, and never gets out of it.
abbrev sole : Orchestrator
sole = record {
  name = "alice";
  pending_acks = 0;
  parameters = params AuthorizationPolicy.last 1 3;
  known_members = "alice" ∷ "" ∷ "" ∷ [];
}

sole-WellFormed : WellFormed sole
unfolding active_count
sole-WellFormed = record {
  usable = record { some_committer = omega arith; fits = omega arith };
  ordered = record {
    sized = refl;
    filled = (alice_named, (refl, (refl, tt)));
    distinct =
        NoRepeat-Distinct ("alice" ∷ "" ∷ "" ∷ [])
          ((λ _. refl), ((λ e. absurd (e refl)), ((λ _. refl), tt)));
  };
}

last_policy_spins_example :
    process_commit counter 1_000_000 sole seed 3 ("carol" ∷ "dave" ∷ []) ≡ spins
unfolding place_all active_count
last_policy_spins_example =
    last_policy_spins counter 1_000_000 sole seed 3 "carol" "dave" []
      ("dave" ∷ "alice" ∷ "carol" ∷ []) 1 1 refl refl sole-WellFormed (omega arith) (omega arith)
      (carol_named, refl, refl, (dave_named, refl, refl, tt)) refl refl

remove_members_lem_example :
    (o' : Orchestrator) × (remove_members alice ("bob" ∷ []) ≡ returns o')
    × WellFormed o'
    × (o' ≡ record alice { known_members = o'.known_members })
    × ((m : String)
        → m ≢ ""
        → contains o'.known_members m
          ≡ (contains alice.known_members m && not (contains ("bob" ∷ []) m)))
remove_members_lem_example =
    remove_members_lem alice ("bob" ∷ []) (pair-WellFormed "alice" AuthorizationPolicy.random) 0
      refl

some_client_acts_example :
    (w : String) × (w ≢ "")
    × (contains {A = String} ("alice" ∷ "carol" ∷ "bob" ∷ []) w ≡ true)
    × ((length {A = String} ("carol" ∷ []) ≤ 1) ⊎ (contains {A = String} ("carol" ∷ []) w ≡ false))
    × (q : Orchestrator × NextAction) × (process_commit counter 5
          (at_client alice w)
          seed
          3
          ("carol" ∷ [])
        ≡ returns q)
    × CommitsNext q
unfolding active_count
some_client_acts_example =
    some_client_acts counter 5 alice seed 3 ("carol" ∷ [])
      (
        record alice { known_members = "alice" ∷ "carol" ∷ "bob" ∷ []; pending_acks = 1 },
        NextAction.listen,
      )
      (pair-WellFormed "alice" AuthorizationPolicy.random) (omega arith) carol_Fresh pair-join
      (λ e. cc) (omega arith)
