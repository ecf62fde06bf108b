-- ===== src/User/Monad.antt =====
-- The effects of a method of emulated_client/src/user.rs: the user's state, an error as a text that
-- ends the method and keeps what was changed, and a panic.
use mls_experimental_analysi.Base.{
  String, string_eq, Bytes, List, [], ◌∷◌, Option, none, some, Outcome, returns, panics, spins,
  Result, ok, err, append,
}
use mls_experimental_analysi.Base.Dict.{Dict, lookup, insert}
use mls_experimental_analysi.Config.{OrchestratedParameters}
use mls_experimental_analysi.Orchestrator.{Orchestrator, NextAction}
use mls_experimental_analysi.DsLib.{Mls}
use mls_experimental_analysi.Agent.{Timing}
use mls_experimental_analysi.User.{Library, User, DeliveryService, AgentType, Group}

abbrev pub Method : {m : Mls} {t : Timing} → Library m t → Type 0 → Type 0
Method l A = User l → Outcome (User l × Result A)

module _ {m : Mls} {t : Timing} {l : Library m t} where
  unfoldable pub pure : {A : Type 0} → A → Method l A
  pure a u = returns (u, ok a)

  -- `return Err(e)`
  unfoldable pub fail : {A : Type 0} → String → Method l A
  fail e u = returns (u, err e)

  unfoldable pub panic : {A : Type 0} → Method l A
  panic u = panics

  infixl 5 ◌>>=◌ ◌>>◌
  unfoldable pub ◌>>=◌ : {A B : Type 0} → Method l A → (A → Method l B) → Method l B
  ◌>>=◌ x f u = elim (x u) [
    | returns (u', result) ↦ elim result [ ok a ↦ f a u' | err e ↦ returns (u', err e) ]
    | panics ↦ panics
    | spins ↦ spins
  ]

  abbrev pub ◌>>◌ : {A B : Type 0} → Method l A → Method l B → Method l B
  x >> y = x >>= λ _. y

  -- The result as a value, which `?` does not return early.
  unfoldable pub attempt : {A : Type 0} → Method l A → Method l (Result A)
  attempt x u = elim (x u) [
    | returns (u', result) ↦ returns (u', ok result)
    | panics ↦ panics
    | spins ↦ spins
  ]

  -- An error gets a prefix.
  unfoldable pub map_err : {A : Type 0} → String → Method l A → Method l A
  map_err message x u = elim (x u) [
    | returns (u', result) ↦ elim result [
      | ok a ↦ returns (u', ok a)
      | err e ↦ returns (u', err (append message e))
    ]
    | panics ↦ panics
    | spins ↦ spins
  ]

  unfoldable pub unwrap_result : {A : Type 0} → Method l A → Method l A
  unwrap_result x u = elim (x u) [
    | returns (u', result) ↦ elim result [ ok a ↦ returns (u', ok a) | err e ↦ panics ]
    | panics ↦ panics
    | spins ↦ spins
  ]

  unfoldable pub gets : {A : Type 0} → (User l → A) → Method l A
  gets f u = returns (u, ok (f u))

  unfoldable pub modify : (User l → User l) → Method l (Unit {0})
  modify f u = returns (f u, ok tt)

  unfoldable pub unwrap : {A : Type 0} → Option A → Method l A
  unwrap none u = panics
  unwrap (some a) u = returns (u, ok a)

  unfoldable pub ok_or : {A : Type 0} → String → Option A → Method l A
  ok_or e none u = returns (u, err e)
  ok_or e (some a) u = returns (u, ok a)

  unfoldable pub lift : {A : Type 0} → Outcome A → Method l A
  lift (returns a) u = returns (u, ok a)
  lift panics u = panics
  lift spins u = spins

  unfoldable pub from_result : {A : Type 0} → Result A → Method l A
  from_result result u = returns (u, result)

  -- A call of a library that cannot fail, and one that can.
  unfoldable pub ask : {A : Type 0} → (l.Env → l.Env × A) → Method l A
  ask call u = let (env, a) = call u.env in returns (record u { env = env }, ok a)

  unfoldable pub call : {A : Type 0} → (l.Env → Outcome (l.Env × Result A)) → Method l A
  call f u = elim (f u.env) [
    | returns (env, result) ↦ returns (record u { env = env }, result)
    | panics ↦ panics
    | spins ↦ spins
  ]

module _ {m : Mls} {t : Timing} {l : Library m t} {A : Type 0} where
  -- By the delivery service: the HTTP interface, or one of the two brokers.
  unfoldable pub by_ds : Method l A → Method l A → Method l A
  by_ds request broker u = elim u.ds [
    | DeliveryService.request ↦ request u
    | DeliveryService.pub_sub_mqtt ↦ broker u
    | DeliveryService.gossip_sub _ ↦ broker u
  ]

  -- By the type of the agent: an independent one, or an orchestrated one.
  unfoldable pub by_agent_type :
      Method l A → (OrchestratedParameters → Dict String Orchestrator → Method l A) → Method l A
  by_agent_type independent orchestrated u = elim u.agent_type [
    | AgentType.independent ↦ independent u
    | AgentType.orchestrator params orchestrators ↦ orchestrated params orchestrators u
  ]

module _ {m : Mls} {t : Timing} {l : Library m t} where
  -- What is done if the next action is to commit.
  unfoldable pub if_commit : NextAction → Method l (Unit {0}) → Method l (Unit {0})
  unfolding pure
  if_commit NextAction.commit x = x
  if_commit NextAction.listen x = pure tt
  if_commit NextAction.inactive x = pure tt

  -- `from_utf8(..).unwrap()`
  abbrev pub text : Bytes → Method l String
  text bytes = unwrap (l.from_utf8 bytes)

  abbrev pub texts : List Bytes → Method l (List String)
  texts [] = pure []
  texts (bytes ∷ rest) = do name ← text bytes; names ← texts rest; pure (name ∷ names)

  -- The group of a name, or the error.
  unfoldable pub group_or : String → String → Method l (Group l)
  group_or e group_name u = ok_or e (lookup group_name u.groups) u

  unfoldable pub put_group : String → Group l → Method l (Unit {0})
  put_group group_name group u =
      returns (record u { groups = insert group_name group u.groups }, ok tt)

  -- An operation on the MLS group behind the name, whose result is the value.
  unfoldable pub on_group :
      {A : Type 0}
      → String
      → Group l
      → (l.MlsGroup → l.Env → l.Env × l.MlsGroup × Result A)
      → Method l A
  on_group group_name group operation u =
      let (env, mls_group, result) = operation group.mls_group u.env in
      returns (
        record u {
          env = env;
          groups = insert group_name (record group { mls_group = mls_group }) u.groups;
        },
        result,
      )
