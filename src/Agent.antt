-- ===== src/Agent.antt =====
-- The agents that drive the simulated clients: emulated_client/emulated_client/src/client_agent/.
-- The user that an agent acts on, emulated_client/emulated_client/src/user.rs, is an interface here:
-- each method takes the user's state to a new state and a result, or panics.
use mls_experimental_analysi.Base.{ℕ, String, Bool, List, Outcome, Result, Bytes}
use mls_experimental_analysi.Config.{AuthorizationPolicy, F64}
use mls_experimental_analysi.Rng.{Rng}
pub mod Independent
pub mod Turn
pub mod Balance
pub mod Display
pub mod Orchestrated
pub mod Commits
mod Tests

-- The measured times of OpenMLS.
pub record Timing : Type 1 where
  pub CryptoTime : Type 0
  pub ProcessCryptoTime : Type 0
  pub MergeTime : Type 0

mutual
  pub data CgkaAction (t : Timing) : Type 0 where
    propose : CgkaAction t → CgkaAction t
    commit : CgkaActions t → ℕ → CgkaAction t
    join : ℕ → ℕ → CgkaAction t
    update : ℕ → CgkaAction t
    invite : String → ℕ → CgkaAction t
    remove : String → ℕ → CgkaAction t
    process : String → CgkaAction t
    store_prop : String → CgkaAction t
    welcome : String → ℕ → CgkaAction t
    deep_commit : ℕ → t.CryptoTime → t.MergeTime → CgkaAction t
    deep_process : String → t.ProcessCryptoTime → t.MergeTime → CgkaAction t
    create : CgkaAction t
    commit_attempt : CgkaAction t → CgkaAction t

  pub data CgkaActions (t : Timing) : Type 0 where
    no_actions : CgkaActions t
    more_actions : CgkaAction t → CgkaActions t → CgkaActions t

-- A method that changes the state: it returns a result, or panics.
abbrev pub Call : Type 0 → Type 0 → Type 0
Call S A = S → Outcome (S × Result A)

-- The methods of `User` that the agents call. `Info` is the group info with its tree.
pub record User (t : Timing) : Type 1 where
  pub State : Type 0
  pub Info : Type 0
  pub list_of_groups : State → List String
  pub group_list : State → List String
  pub members_of_group : String → State → Outcome (List String)
  pub not_members_of_group : String → State → List String
  pub number_of_members : String → State → ℕ
  pub update_clients : Call State Unit
  pub fetch_updates : Call State Unit
  pub is_authorised : String → AuthorizationPolicy → Call State Bool
  pub group_exists : String → Call State Bool
  pub get_group_info : String → Call State Info
  pub publish_group_info : String → Call State Unit
  pub create_group : String → Call State Unit
  pub external_join : String → Info → Call State Unit
  pub invite : String → String → Call State Unit
  pub remove : String → String → Call State Unit
  pub update_state : String → Call State Unit
  pub propose : CgkaAction t → String → Call State Unit
  pub pending_proposals : String → Call State ℕ
  pub commit_to_proposals : String → ℕ → Call State Unit
  pub send_application_msg : String → String → Call State Unit

-- The generator of the agents' thread: the draws of `Rng`, and those that yield other types.
pub record ThreadRng (f : F64) : Type 1 where
  pub rng : Rng
  -- `gen::<f64>()` and `gen_range(0.0..1.0)`
  pub unit : rng.State → f.Float × rng.State
  -- so many characters of `Alphanumeric`
  pub alphanumeric : ℕ → rng.State → String × rng.State
