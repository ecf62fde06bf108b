-- ===== src/User/Keeps/Rules.antt =====
-- What a method of emulated_client/src/user.rs keeps, and how the monad of the methods keeps it.
use mls_experimental_analysi.Base.{
  String, string_eq, Bool, true, false, Option, none, some, if◌then◌else◌, append, Outcome, returns,
  panics, spins, Result, ok, err, Post,
}
use mls_experimental_analysi.Base.Dict.{Dict}
use mls_experimental_analysi.DsLib.{Mls}
use mls_experimental_analysi.Config.{OrchestratedParameters}
use mls_experimental_analysi.Orchestrator.{Orchestrator}
use mls_experimental_analysi.Agent.{Timing}
use mls_experimental_analysi.User.{Library, User, DeliveryService, AgentType}
use mls_experimental_analysi.User.Monad.{
  Method, ◌>>=◌, pure, fail, panic, attempt, map_err, unwrap_result, gets, unwrap, ok_or, lift,
  from_result, by_ds, by_agent_type,
}

module _ {m : Mls} {t : Timing} {l : Library m t} where
  -- The method keeps `P`, whether it succeeds or fails, unless it does not return.
  pub record Keeps {A : Type 0} (P : User l → Type 0) (x : Method l A) : Type 0 where
    pub at : (u : User l) → P u → Post (λ q. P q.0) (x u)

  module _ {A : Type 0} where
    Post-map_err :
        (P : User l → Type 0) (e : String) (o : Outcome (User l × Result A))
        → Post (λ q. P q.0) o
        → Post {A = User l × Result A}
            (λ q. P q.0)
            (elim o [
              | returns (u', result) ↦ elim result [
                | ok a ↦ returns (u', ok a)
                | err e' ↦ returns (u', err (append e e'))
              ]
              | panics ↦ panics
              | spins ↦ spins
            ])
    Post-map_err P e (returns (u, ok a)) h = h
    Post-map_err P e (returns (u, err e')) h = h
    Post-map_err P e panics h = tt
    Post-map_err P e spins h = tt

    Post-unwrap_result :
        (P : User l → Type 0) (o : Outcome (User l × Result A))
        → Post (λ q. P q.0) o
        → Post {A = User l × Result A}
            (λ q. P q.0)
            (elim o [
              | returns (u', result) ↦ elim result [ ok a ↦ returns (u', ok a) | err e ↦ panics ]
              | panics ↦ panics
              | spins ↦ spins
            ])
    Post-unwrap_result P (returns (u, ok a)) h = h
    Post-unwrap_result P (returns (u, err e)) h = tt
    Post-unwrap_result P panics h = tt
    Post-unwrap_result P spins h = tt

    Post-attempt :
        (P : User l → Type 0) (o : Outcome (User l × Result A))
        → Post (λ q. P q.0) o
        → Post {A = User l × Result (Result A)}
            (λ q. P q.0)
            (elim o [
              | returns (u', result) ↦ returns (u', ok result)
              | panics ↦ panics
              | spins ↦ spins
            ])
    Post-attempt P (returns q) h = h
    Post-attempt P panics h = tt
    Post-attempt P spins h = tt

  module _ {P : User l → Type 0} where
    module _ {A : Type 0} where
      pub Keeps-pure : (a : A) → Keeps P (pure a)
      unfolding pure
      Keeps-pure a = record { at = λ u h. h }

      pub Keeps-fail : (e : String) → Keeps P (fail {A = A} e)
      unfolding fail
      Keeps-fail e = record { at = λ u h. h }

      pub Keeps-panic : Keeps P (panic {A = A})
      unfolding panic
      Keeps-panic = record { at = λ u h. tt }

      pub Keeps-gets : (f : User l → A) → Keeps P (gets f)
      unfolding gets
      Keeps-gets f = record { at = λ u h. h }

      pub Keeps-from_result : (r : Result A) → Keeps P (from_result r)
      unfolding from_result
      Keeps-from_result r = record { at = λ u h. h }

      pub Keeps-unwrap : (o : Option A) → Keeps P (unwrap o)
      unfolding unwrap
      Keeps-unwrap none = record { at = λ u h. tt }
      Keeps-unwrap (some a) = record { at = λ u h. h }

      pub Keeps-ok_or : (e : String) (o : Option A) → Keeps P (ok_or e o)
      unfolding ok_or
      Keeps-ok_or e none = record { at = λ u h. h }
      Keeps-ok_or e (some a) = record { at = λ u h. h }

      pub Keeps-lift : (o : Outcome A) → Keeps P (lift o)
      unfolding lift
      Keeps-lift (returns a) = record { at = λ u h. h }
      Keeps-lift panics = record { at = λ u h. tt }
      Keeps-lift spins = record { at = λ u h. tt }

      pub Keeps-map_err : (e : String) (x : Method l A) → Keeps P x → Keeps P (map_err e x)
      unfolding map_err
      Keeps-map_err e x kx = record { at = λ u h. Post-map_err P e (x u) (kx.at u h) }

      pub Keeps-unwrap_result : (x : Method l A) → Keeps P x → Keeps P (unwrap_result x)
      unfolding unwrap_result
      Keeps-unwrap_result x kx = record { at = λ u h. Post-unwrap_result P (x u) (kx.at u h) }

      pub Keeps-attempt : (x : Method l A) → Keeps P x → Keeps P (attempt x)
      unfolding attempt
      Keeps-attempt x kx = record { at = λ u h. Post-attempt P (x u) (kx.at u h) }

      pub Keeps-if :
          (b : Bool) (x y : Method l A) → Keeps P x → Keeps P y → Keeps P (if b then x else y)
      Keeps-if true x y kx ky = kx
      Keeps-if false x y kx ky = ky

    module _ {A B : Type 0} where
      pub Post-bind :
          (o : Outcome (User l × Result A)) (k : A → Method l B)
          → Post (λ q. P q.0) o
          → ((a : A) → Keeps P (k a))
          → Post {A = User l × Result B}
              (λ q. P q.0)
              (elim o [
                | returns (u', result) ↦ elim result [ ok a ↦ k a u' | err e ↦ returns (u', err e) ]
                | panics ↦ panics
                | spins ↦ spins
              ])
      Post-bind (returns (u, ok a)) k h kk = (kk a).at u h
      Post-bind (returns (u, err e)) k h kk = h
      Post-bind panics k h kk = tt
      Post-bind spins k h kk = tt

      pub Keeps-bind :
          (x : Method l A) (k : A → Method l B)
          → Keeps P x
          → ((a : A) → Keeps P (k a))
          → Keeps P (x >>= k)
      unfolding ◌>>=◌
      Keeps-bind x k kx kk = record { at = λ u h. Post-bind (x u) k (kx.at u h) kk }

    module _ {A : Type 0} where
      pub Keeps-by_ds : (x y : Method l A) → Keeps P x → Keeps P y → Keeps P (by_ds x y)
      unfolding by_ds
      Keeps-by_ds x y kx ky = record { at = λ u h. by_case u u.ds h }
        where
          by_case :
              (u : User l) (ds : DeliveryService)
              → P u
              → Post {A = User l × Result A}
                  (λ q. P q.0)
                  (elim ds [
                    | DeliveryService.request ↦ x u
                    | DeliveryService.pub_sub_mqtt ↦ y u
                    | DeliveryService.gossip_sub _ ↦ y u
                  ])
          by_case u DeliveryService.request h = kx.at u h
          by_case u DeliveryService.pub_sub_mqtt h = ky.at u h
          by_case u (DeliveryService.gossip_sub _) h = ky.at u h

      pub Keeps-by_agent_type :
          (x : Method l A) (y : OrchestratedParameters → Dict String Orchestrator → Method l A)
          → Keeps P x
          → ((p : OrchestratedParameters) (d : Dict String Orchestrator) → Keeps P (y p d))
          → Keeps P (by_agent_type x y)
      unfolding by_agent_type
      Keeps-by_agent_type x y kx ky = record { at = λ u h. by_case u u.agent_type h }
        where
          by_case :
              (u : User l) (agent_type : AgentType)
              → P u
              → Post {A = User l × Result A}
                  (λ q. P q.0)
                  (elim agent_type [
                    | AgentType.independent ↦ x u
                    | AgentType.orchestrator params orchestrators ↦ y params orchestrators u
                  ])
          by_case u AgentType.independent h = kx.at u h
          by_case u (AgentType.orchestrator p d) h = (ky p d).at u h
