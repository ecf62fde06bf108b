-- ===== src/Orchestrator/Acks.antt =====
-- The countdown of `process_ack` in orchestrator.rs.
use mls_experimental_analysi.Base.{ℕ, zero, suc, ◌+◌, ◌-◌, ◌≡◌, ◌↔◌, arith, string_eq}
use mls_experimental_analysi.Orchestrator.{Orchestrator, NextAction, process_ack}

-- The state after `k` acknowledgements.
pub after_acks : ℕ → Orchestrator → Orchestrator
after_acks zero o = o
after_acks (suc k) o = (process_ack (after_acks k o)).0

pending_acks-process_ack : (o : Orchestrator) → (process_ack o).0.pending_acks ≡ o.pending_acks - 1
unfolding process_ack
pending_acks-process_ack o = ground arith

pending_acks-after_acks :
    (k : ℕ) (o : Orchestrator) → (after_acks k o).pending_acks ≡ o.pending_acks - k
unfolding after_acks
pending_acks-after_acks zero o = omega arith
pending_acks-after_acks (suc k) o =
    omega (arith, pending_acks-process_ack (after_acks k o), pending_acks-after_acks k o)

process_ack-commit :
    (o : Orchestrator) → ((process_ack o).1 ≡ NextAction.commit) ↔ (o.pending_acks ≡ 1)
unfolding process_ack
process_ack-commit o = ground arith

-- The acknowledgement after `k` others tells the client to commit exactly if it is the last one
-- that was pending.
pub last_ack_commits :
    (k : ℕ) (o : Orchestrator)
    → ((process_ack (after_acks k o)).1 ≡ NextAction.commit) ↔ (o.pending_acks ≡ k + 1)
last_ack_commits k o = (
  λ c. omega (arith, (process_ack-commit (after_acks k o)).0 c, pending_acks-after_acks k o),
  λ e. (process_ack-commit (after_acks k o)).1 (omega (arith, pending_acks-after_acks k o)),
)
