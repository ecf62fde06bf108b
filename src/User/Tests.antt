-- ===== src/User/Tests.antt =====
-- The theorems on the user of emulated_client/src/user.rs, at small inputs.
use mls_experimental_analysi.Base.{
  String, string_eq, bytes_eq, true, false, none, some, [], ◌∷◌, ◌++◌, arith, nat_eq, ◌≡◌, ◌≢◌,
  refl, returns, ok, err, Post,
}
use mls_experimental_analysi.Base.Dict.{Dict, lookup}
use mls_experimental_analysi.Config.{AuthorizationPolicy, OrchestratedParameters}
use mls_experimental_analysi.Orchestrator.{Orchestrator}
use mls_experimental_analysi.DsLib.{WelcomeAcknowledgement}
use mls_experimental_analysi.Agent.{CgkaAction}
use mls_experimental_analysi.User.{User, AgentType}
use mls_experimental_analysi.User.Pending.{
  pending_commit-silences, Confirmed, own_message-Confirmed,
}
use mls_experimental_analysi.User.Inactive.{inactive_users-stay, Behind, later_commits-suspend}
use mls_experimental_analysi.User.Sent.{Settled, post_process_commit-Settled}
use mls_experimental_analysi.User.Journal.{HasLog, Written, write_all, write_all-Written}
use mls_experimental_analysi.User.Acks.{AgentTold, last_ack-AgentTold}
use mls_experimental_analysi.User.Commits.{post_process_commit}
use mls_experimental_analysi.User.Receive.{process_protocol_message}
use mls_experimental_analysi.User.Groups.{send_application_msg}
use mls_experimental_analysi.User.Inbox.{is_authorised, process_in_message, process_in_messages}
use mls_experimental_analysi.User.Sample.{
  rng, alice, bob, library, update, club_group, member, waiting, from,
}

pending_commit-silences_example :
    Post
      (λ q.
        (lookup "club" q.0.pending_commits ≡ some update)
        × (send_application_msg "hi" "club" q.0 ≡ returns (q.0, err "There is a pending commit")))
      (process_in_messages {l = library} rng 5 (from bob 3 ∷ from bob 9 ∷ []) waiting)
unfolding lookup
pending_commit-silences_example =
    pending_commit-silences rng 5 waiting "club" "hi" update (from bob 3 ∷ from bob 9 ∷ []) refl
      (("bob", refl, λ e. cc), (("bob", refl, λ e. cc), tt))

own_message-Confirmed_example :
    Post (λ q. Confirmed "club" waiting q.0) (process_in_message rng 5 (from alice 3) waiting)
own_message-Confirmed_example =
    own_message-Confirmed rng 5 waiting (from alice 3) 3 "club" (refl, refl, refl)

post_process_commit-Settled_example :
    Post
      (Settled AgentType.independent "club" (CgkaAction.update 100) none)
      (post_process_commit rng 5 "club" 3 none none (CgkaAction.update 100) 3 (member true []))
post_process_commit-Settled_example =
    post_process_commit-Settled rng 5 (member true []) "club" 3 none none (CgkaAction.update 100) 3

inactive_users-stay_example :
    Post
      (λ q. is_authorised "club" AuthorizationPolicy.random q.0 ≡ returns (q.0, ok false))
      (process_in_messages {l = library} rng 5 (from bob 3 ∷ from bob 9 ∷ []) (member false []))
unfolding lookup
inactive_users-stay_example =
    inactive_users-stay rng 5 (member false []) "club" AuthorizationPolicy.random
      (from bob 3 ∷ from bob 9 ∷ []) refl ((λ welcome e. cc), ((λ welcome e. cc), tt))

later_commits-suspend_example :
    Post
      (λ q. Behind "club" (member true []) q.0)
      (process_protocol_message rng 5 9 "bob" (member true []))
unfolding lookup
later_commits-suspend_example =
    later_commits-suspend rng 5 (member true []) 9 "bob" "club" club_group (true, 0) refl refl refl
      refl (omega arith)

library-HasLog : HasLog library (λ env. env)
library-HasLog = record { appends = λ text env. (env ++ text ∷ [], refl, refl) }

write_all-Written_example :
    (u' : User library) × (write_all (update.action_record ∷ []) waiting ≡ returns (u', ok tt))
    × Written (λ env. env) waiting u' (update.action_record ∷ [])
write_all-Written_example =
    write_all-Written (λ env. env) library-HasLog (update.action_record ∷ []) waiting (omega arith)

abbrev parameters : OrchestratedParameters
parameters = record {
  max_active_committers = 1;
  max_active_processers = 3;
  auth_policy = AuthorizationPolicy.random;
}

abbrev club_orchestrator : Orchestrator
club_orchestrator = record {
  name = "alice";
  pending_acks = 2;
  parameters = parameters;
  known_members = "alice" ∷ "bob" ∷ "dan" ∷ [];
}

abbrev orchestrators : Dict String Orchestrator
orchestrators = ("club", club_orchestrator) ∷ []

abbrev ack_of : String → WelcomeAcknowledgement
ack_of sender = record { sender = sender; group = "club" }

bob≢alice : ◌≢◌ {A = String} "bob" "alice"
bob≢alice e = cc

dan≢alice : ◌≢◌ {A = String} "dan" "alice"
dan≢alice e = cc

last_ack-AgentTold_example :
    AgentTold (member true []) parameters "club" (ack_of "bob" ∷ []) (ack_of "dan") orchestrators
unfolding lookup
last_ack-AgentTold_example =
    last_ack-AgentTold (member true []) parameters "club" (ack_of "bob" ∷ []) (ack_of "dan")
      orchestrators club_orchestrator refl refl ((bob≢alice, refl), tt) (dan≢alice, refl)
