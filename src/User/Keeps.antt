-- ===== src/User/Keeps.antt =====
-- What the methods of emulated_client/src/user.rs that change little of the state keep, and one rule
-- for each way to build a method.
pub mod Rules
use mls_experimental_analysi.Base.{
  ℕ, String, string_eq, Bytes, false, List, [], ◌∷◌, ◌≡◌, Outcome, returns, panics, spins, Result,
  Post,
}
use mls_experimental_analysi.Base.Dict.{Dict, lookup, insert}
use mls_experimental_analysi.DsLib.{Mls}
use mls_experimental_analysi.Config.{OrchestratedParameters}
use mls_experimental_analysi.Orchestrator.{Orchestrator, NextAction}
use mls_experimental_analysi.Identity.{Identity}
use mls_experimental_analysi.Agent.{Timing}
use mls_experimental_analysi.User.{Library, User, Contact, AgentType, Group, ActionRecord}
use mls_experimental_analysi.User.Monad.{
  Method, modify, ask, call, texts, group_or, put_group, on_group, if_commit,
}
pub use mls_experimental_analysi.User.Keeps.Rules.{
  Keeps, Keeps-pure, Keeps-fail, Keeps-panic, Keeps-gets, Keeps-from_result, Keeps-unwrap,
  Keeps-ok_or, Keeps-lift, Keeps-map_err, Keeps-unwrap_result, Keeps-attempt, Keeps-if, Post-bind,
  Keeps-bind, Keeps-by_ds, Keeps-by_agent_type,
}

module _ {m : Mls} {t : Timing} {l : Library m t} where
  -- What does not look at the parts of the state that most methods change. A group may become
  -- inactive.
  pub record IsFrame (P : User l → Type 0) : Type 0 where
    pub of_env : (u : User l) (env : l.Env) → P u → P (record u { env = env })
    pub of_groups : (u : User l) (d : Dict String (Group l)) → P u → P (record u { groups = d })
    pub of_list : (u : User l) (names : List String) → P u → P (record u { group_list = names })
    pub of_buffer :
        (u : User l) (items : List (ActionRecord t)) → P u → P (record u { file_buffer = items })
    pub of_contacts : (u : User l) (d : Dict Bytes Contact) → P u → P (record u { contacts = d })
    pub of_identity : (u : User l) (i : Identity m) → P u → P (record u { identity = i })
    pub of_orchestrators :
        (u : User l) (p : OrchestratedParameters) (d d' : Dict String Orchestrator)
        → u.agent_type ≡ AgentType.orchestrator p d
        → P u
        → P (record u { agent_type = AgentType.orchestrator p d' })
    pub of_behind :
        (u : User l) (name : String) (epoch : ℕ)
        → P u
        → P (record u { active = insert name (false, epoch) u.active })

  module _ {P : User l → Type 0} where
    pub Keeps-if_commit :
        (next : NextAction) (x : Method l (Unit {0})) → Keeps P x → Keeps P (if_commit next x)
    unfolding if_commit
    Keeps-if_commit NextAction.commit x kx = kx
    Keeps-if_commit NextAction.listen x kx = Keeps-pure tt
    Keeps-if_commit NextAction.inactive x kx = Keeps-pure tt

    pub Keeps-texts : (names : List Bytes) → Keeps P (texts names)
    Keeps-texts [] = Keeps-pure []
    Keeps-texts (name ∷ names) =
        Keeps-bind _ _ (Keeps-unwrap _)
          (λ _. Keeps-bind _ _ (Keeps-texts names) (λ _. Keeps-pure _))

    pub Keeps-group_or : (e name : String) → Keeps P (group_or e name)
    unfolding group_or
    Keeps-group_or e name = record { at = λ u h. (Keeps-ok_or e (lookup name u.groups)).at u h }

    pub Keeps-modify : (f : User l → User l) → ((u : User l) → P u → P (f u)) → Keeps P (modify f)
    unfolding modify
    Keeps-modify f h = record { at = h }

    Post-call :
        {A : Type 0}
        → ((u : User l) (env : l.Env) → P u → P (record u { env = env }))
        → (u : User l) (o : Outcome (l.Env × Result A)) → P u
        → Post {A = User l × Result A}
            (λ q. P q.0)
            (elim o [
              | returns (env, result) ↦ returns (record u { env = env }, result)
              | panics ↦ panics
              | spins ↦ spins
            ])
    Post-call of_env u (returns (env, result)) h = of_env u env h
    Post-call of_env u panics h = tt
    Post-call of_env u spins h = tt

    pub Keeps-call_env :
        {A : Type 0}
        → ((u : User l) (env : l.Env) → P u → P (record u { env = env }))
        → (f : l.Env → Outcome (l.Env × Result A)) → Keeps P (call f)
    unfolding call
    Keeps-call_env of_env f = record { at = λ u h. Post-call of_env u (f u.env) h }

    module _ (frame : IsFrame P) where
      pub Keeps-put_group : (name : String) (group : Group l) → Keeps P (put_group name group)
      unfolding put_group
      Keeps-put_group name group = record { at = λ u h. frame.of_groups u _ h }

      pub Keeps-ask : {A : Type 0} (f : l.Env → l.Env × A) → Keeps P (ask f)
      unfolding ask
      Keeps-ask f = record { at = λ u h. frame.of_env u (f u.env).0 h }

      pub Keeps-call : {A : Type 0} (f : l.Env → Outcome (l.Env × Result A)) → Keeps P (call f)
      Keeps-call f = Keeps-call_env frame.of_env f

      pub Keeps-on_group :
          {A : Type 0} (name : String) (group : Group l)
          (operation : l.MlsGroup → l.Env → l.Env × l.MlsGroup × Result A)
          → Keeps P (on_group name group operation)
      unfolding on_group
      Keeps-on_group name group operation = record {
        at = λ u h. frame.of_groups _ _ (frame.of_env u _ h);
      }

pub ruleset keeps_rules = (
  Keeps-pure, Keeps-fail, Keeps-panic, Keeps-gets, Keeps-from_result, Keeps-unwrap, Keeps-ok_or,
  Keeps-lift, Keeps-map_err, Keeps-unwrap_result, Keeps-attempt, Keeps-if, Keeps-bind, Keeps-by_ds,
  Keeps-by_agent_type, Keeps-if_commit, Keeps-texts, Keeps-group_or, Keeps-put_group, Keeps-ask,
  Keeps-call, Keeps-on_group,
)
