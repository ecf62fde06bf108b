-- ===== src/Agent/Tests.antt =====
-- The agents on a small user: an independent one draws an update, whose commit fails, and an
-- orchestrated one draws an update that is accepted.
use mls_experimental_analysi.Base.{
  Post, none, some, ℕ, ◌≤◌, ◌<◌, ◌+◌, ◌≡◌, refl, true, false, [], ◌∷◌, arith, ltb, ◌==◌, nat_eq,
  returns, ok, err,
}
use mls_experimental_analysi.Config.{
  F64, Paradigm, Behaviour, UserParameters, AuthorizationPolicy, DsType, I64,
}
use mls_experimental_analysi.Config.Settings.{
  Settings, user_parameters, user_parameters_with, server_url,
}
use mls_experimental_analysi.Agent.{Timing, User, ThreadRng, Call}
use mls_experimental_analysi.Agent.Independent as Independent
use mls_experimental_analysi.Agent.Independent.{scale}
use mls_experimental_analysi.Agent.Turn.{group_turn}
use mls_experimental_analysi.Agent.Balance.{counted, Level, group_turn-Level}
use mls_experimental_analysi.Agent.Commits.{tallied, act_loop-one_commit}
use mls_experimental_analysi.Agent.Orchestrated.{act_loop, update_group}

abbrev thousandths : F64
thousandths = record {
  Float = ℕ;
  lt = ltb;
  is_zero = λ x. x == 0;
  add = λ x y. x + y;
  div = λ x y. x;
  from_nat = λ n. n;
}

abbrev timing : Timing
timing = record { CryptoTime = ℕ; ProcessCryptoTime = ℕ; MergeTime = ℕ }

lowest_bounds : (s lo hi : ℕ) → lo < hi → (lo ≤ lo) × (lo < hi)
lowest_bounds s lo hi h = (omega arith, h)

-- Every draw is the lowest of its range, but 999 thousandths where a chance is drawn again.
abbrev draws : ThreadRng thousandths
draws = record {
  rng = record {
    State = ℕ;
    from_seed = λ seed. 0;
    draw = λ s lo hi. (lo, s);
    draw_bounds = lowest_bounds;
  };
  unit = λ s. (s, 999);
  alphanumeric = λ n s. ("hello", s);
}

abbrev succeeds : {A : Type 0} → A → Call ℕ A
succeeds a s = returns (s, ok a)

-- Each publication counts.
abbrev user : User timing
user = record {
  State = ℕ;
  Info = ℕ;
  list_of_groups = λ s. "group" ∷ [];
  group_list = λ s. "group" ∷ [];
  members_of_group = λ name s. returns ("bob" ∷ []);
  not_members_of_group = λ name s. "carol" ∷ [];
  number_of_members = λ name s. 2;
  update_clients = succeeds tt;
  fetch_updates = succeeds tt;
  is_authorised = λ name policy. succeeds true;
  group_exists = λ name. succeeds true;
  get_group_info = λ name. succeeds 5;
  publish_group_info = λ name s. returns (s + 1, ok tt);
  create_group = λ name. succeeds tt;
  external_join = λ name info. succeeds tt;
  invite = λ user name. succeeds tt;
  remove = λ user name. succeeds tt;
  update_state = λ name s. returns (s, err "late");
  propose = λ action name. succeeds tt;
  pending_proposals = λ name. succeeds 0;
  commit_to_proposals = λ name amount. succeeds tt;
  send_application_msg = λ msg name. succeeds tt;
}

abbrev parameters : UserParameters thousandths
parameters = record {
  delivery_service = DsType.request;
  server_url = "http://localhost:8080";
  external_join = false;
  join_chance = 50;
  message_chance = 400;
  message_length_min = 200;
  message_length_max = 2000;
  groups = "group" ∷ [];
  max_members = 1000;
  invite_chance = 600;
  remove_chance = 100;
  update_chance = 300;
  behaviour = Behaviour.independent (record {
    sleep_millis_min = I64.pos 10000;
    sleep_millis_max = I64.pos 30000;
    issue_update_chance = 500;
    scale = false;
    auth_policy = AuthorizationPolicy.random;
  });
  paradigm = Paradigm.commit;
  proposals_per_commit = 2;
  mqtt_url = "tcp://localhost:1883";
}

-- The update fails, and the group info is published once.
turn_end : group_turn draws (counted user) parameters "group" (7, 3) 100 ≡ returns ((8, 3), 999)
unfolding group_turn scale Independent.update_group
turn_end = refl

group_turn-Level_example :
    Level draws user parameters 3 (group_turn draws (counted user) parameters "group" (7, 3) 100)
group_turn-Level_example = group_turn-Level draws user parameters "group" 7 3 100

-- The same user, which accepts updates.
abbrev obliging : User timing
obliging = record user { update_state = λ name s. returns (s + 1, ok tt) }

loop_end : act_loop draws (tallied obliging) parameters 2 "group" (7, 3) 700 ≡ returns ((8, 4), 999)
unfolding act_loop update_group
loop_end = refl

act_loop-one_commit_example :
    Post (λ q. q.0.1 ≡ 4) (act_loop draws (tallied obliging) parameters 2 "group" (7, 3) 700)
act_loop-one_commit_example = act_loop-one_commit draws obliging parameters 2 "group" 7 3 700

-- Settings in which every chance is nought and nothing else is set.
abbrev blank : Settings thousandths
blank = record {
  get_int = λ key. none;
  get_float = λ key. some 0;
  get_bool = λ key. none;
  get_string = λ key. none;
  get_array = λ key. none;
  parse_url = λ url. some url;
}

blank_read :
    user_parameters blank ≡ returns (ok (user_parameters_with blank "http://localhost:8080"))
unfolding user_parameters server_url
blank_read = refl
