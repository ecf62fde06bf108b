-- ===== src/User/Acks.antt =====
-- The acknowledgements that reach an orchestrated user of emulated_client/src/user.rs.
use mls_experimental_analysi.Base.{
  ℕ, suc, String, string_eq, ==-ne, List, [], ◌∷◌, All, length, some, ◌≡◌, ◌≢◌, refl, ap, ◌∙◌,
  arith, returns, ok,
}
use mls_experimental_analysi.Base.Dict.{Dict, lookup, insert, lookup-insert_self}
use mls_experimental_analysi.Config.{OrchestratedParameters}
use mls_experimental_analysi.Orchestrator
use mls_experimental_analysi.Orchestrator.{Orchestrator, NextAction}
use mls_experimental_analysi.DsLib.{Mls, WelcomeAcknowledgement}
use mls_experimental_analysi.Agent.{Timing}
use mls_experimental_analysi.User.{Library, User, AgentType}
use mls_experimental_analysi.User.Monad.{
  Method, ◌>>=◌, ◌>>◌, pure, gets, modify, unwrap, by_agent_type, if_commit,
}
use mls_experimental_analysi.User.Blocks.{>>=-runs}
use mls_experimental_analysi.User.Delivery.{send_to_agent}
use mls_experimental_analysi.User.Commits.{orchestrator_of, put_orchestrator}
use mls_experimental_analysi.User.Inbox.{process_ack}

-- Another user acknowledges that it has joined the group.
abbrev pub IsAck : String → String → WelcomeAcknowledgement → Type 0
IsAck username group_name ack = (ack.sender ≢ username) × (ack.group ≡ group_name)

abbrev pub acknowledged : Orchestrator → Orchestrator
acknowledged o = (Orchestrator.process_ack o).0

last_ack-commit :
    (o : Orchestrator)
    → o.pending_acks ≡ 1
    → ((Orchestrator.process_ack o).1 ≡ NextAction.commit)
      × ((Orchestrator.process_ack o).0.pending_acks ≡ 0)
unfolding Orchestrator.process_ack
last_ack-commit o e = (ground arith, ground arith)

early_ack-listen :
    (o : Orchestrator) (k : ℕ)
    → o.pending_acks ≡ suc (suc k)
    → ((Orchestrator.process_ack o).1 ≡ NextAction.listen)
      × ((Orchestrator.process_ack o).0.pending_acks ≡ suc k)
unfolding Orchestrator.process_ack
early_ack-listen o k e = (ground arith, ground arith)

module _ {m : Mls} {t : Timing} {l : Library m t} where
  abbrev pub process_acks : List WelcomeAcknowledgement → Method l (Unit {0})
  process_acks [] = pure tt
  process_acks (ack ∷ acks) = do process_ack ack; process_acks acks

  module _ (u : User l) (p : OrchestratedParameters) where
    -- The user with the orchestrators of its groups.
    abbrev pub with_orchestrators : Dict String Orchestrator → User l
    with_orchestrators d = record u { agent_type = AgentType.orchestrator p d }

    orchestrator_of-known :
        (group_name : String) (d : Dict String Orchestrator) (o : Orchestrator)
        → lookup group_name d ≡ some o
        → orchestrator_of {l = l} group_name (with_orchestrators d)
          ≡ returns (with_orchestrators d, ok o)
    unfolding orchestrator_of by_agent_type unwrap
    orchestrator_of-known group_name d o known =
        ap (λ found. unwrap found (with_orchestrators d)) known

    process_ack-step :
        (group_name : String) (d : Dict String Orchestrator) (o : Orchestrator)
        (ack : WelcomeAcknowledgement)
        → lookup group_name d ≡ some o
        → IsAck u.username group_name ack
        → process_ack ack (with_orchestrators d)
          ≡ if_commit
              (Orchestrator.process_ack o).1
              (send_to_agent group_name)
              (with_orchestrators (insert group_name (acknowledged o) d))
    unfolding process_ack ◌>>=◌ gets by_agent_type put_orchestrator modify
    process_ack-step group_name d o ack known (other, same) = rw (==-ne other) (
        rw same (
          >>=-runs (orchestrator_of group_name) _ (with_orchestrators d) (with_orchestrators d) o
            (orchestrator_of-known group_name d o known)))

    -- The acknowledgements before the last one.
    process_acks-early :
        (group_name : String) (acks : List WelcomeAcknowledgement) (d : Dict String Orchestrator)
        (o : Orchestrator)
        → lookup group_name d ≡ some o
        → o.pending_acks ≡ suc (length acks)
        → All (IsAck u.username group_name) acks
        → (d' : Dict String Orchestrator) × (o' : Orchestrator) × (process_acks acks
              (with_orchestrators d)
            ≡ returns (with_orchestrators d', ok tt))
          × (lookup group_name d' ≡ some o')
          × (o'.pending_acks ≡ 1)
    unfolding pure if_commit
    process_acks-early group_name [] d o known left others = (d, o, refl, known, left)
    process_acks-early group_name (ack ∷ acks) d o known left (other, others) =
        let (listens, fewer) = early_ack-listen o (length acks) left in
        let d1 = insert group_name (acknowledged o) d in
        let (d', o', runs, known', one) =
          process_acks-early group_name acks d1 (acknowledged o)
            (lookup-insert_self group_name (acknowledged o) d) fewer others in
        (
          d',
          o',
          >>=-runs (process_ack ack) (λ _. process_acks acks) (with_orchestrators d)
                (with_orchestrators d1) tt
                (process_ack-step group_name d o ack known other
                  ∙ ap (λ next. if_commit next (send_to_agent group_name) (with_orchestrators d1))
                      listens)
              ∙ runs,
          known',
          one,
        )

    -- The agent hears of the group only at the last acknowledgement.
    abbrev pub AgentTold :
        String
        → List WelcomeAcknowledgement
        → WelcomeAcknowledgement
        → Dict String Orchestrator
        → Type 0
    AgentTold group_name acks ack d =
        (d' : Dict String Orchestrator) × (o : Orchestrator) × (process_acks acks
            (with_orchestrators d)
          ≡ returns (with_orchestrators d', ok tt))
        × (process_ack ack (with_orchestrators d')
            ≡ send_to_agent group_name (with_orchestrators (insert group_name o d')))
        × (o.pending_acks ≡ 0)

    -- Where an orchestrated user waits for one acknowledgement more than there are in a list, all
    -- of others and for the group, then these are taken without a word to the agent, and the next
    -- one tells the agent to commit and leaves none to wait for.
    pub last_ack-AgentTold :
        (group_name : String) (acks : List WelcomeAcknowledgement) (ack : WelcomeAcknowledgement)
        (d : Dict String Orchestrator) (o : Orchestrator)
        → lookup group_name d ≡ some o
        → o.pending_acks ≡ suc (length acks)
        → All (IsAck u.username group_name) acks
        → IsAck u.username group_name ack
        → AgentTold group_name acks ack d
    unfolding if_commit
    last_ack-AgentTold group_name acks ack d o known left others other =
        let (d', o', runs, known', one) =
          process_acks-early group_name acks d o known left others in
        (
          d',
          acknowledged o',
          runs,
          process_ack-step group_name d' o' ack known' other
              ∙ ap
                  (λ next.
                    if_commit next (send_to_agent group_name)
                      (with_orchestrators (insert group_name (acknowledged o') d')))
                  (last_ack-commit o' one).0,
          (last_ack-commit o' one).1,
        )
