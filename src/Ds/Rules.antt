-- ===== src/Ds/Rules.antt =====
-- How to prove a statement about the end of a handler of ds/src/main.rs: one rule for each way in
-- which it can return early.
use mls_experimental_analysi.Base.{
  ◌≡◌, refl, Option, none, some, Bool, true, false, Outcome, returns, panics, spins, if◌then◌else◌,
}
use mls_experimental_analysi.DsLib.{Mls}
use mls_experimental_analysi.Ds.{
  DsData, Mutex, Response, Flow, ◌>>=◌, or_reply, or_crash, lock, finish,
}

module _ {m : Mls} (Q : DsData m → Response → Type 0) where
  -- The handler ends in a state and a response that are related so.
  abbrev pub Ends : Flow m (DsData m × Response) → Type 0
  Ends (Flow.next (d, response)) = Q d response
  Ends (Flow.reply d response) = Q d response

  pub finish_rule : (x : Flow m (DsData m × Response)) → Ends x → Q (finish x).0 (finish x).1
  finish_rule (Flow.next q) h = h
  finish_rule (Flow.reply d response) h = h

  module _ {A : Type 0} (d : DsData m) (f : A → Flow m (DsData m × Response)) where
    pub or_reply_rule :
        (o : Option A) (response : Response)
        → (o ≡ none → Q d response)
        → ((a : A) → o ≡ some a → Ends (f a))
        → Ends (or_reply o d response >>= f)
    or_reply_rule none response stop go = stop refl
    or_reply_rule (some a) response stop go = go a refl

    pub or_crash_rule :
        (o : Outcome A)
        → Q d Response.crashed
        → ((a : A) → o ≡ returns a → Ends (f a))
        → Ends (or_crash o d >>= f)
    or_crash_rule (returns a) stop go = go a refl
    or_crash_rule panics stop go = stop
    or_crash_rule spins stop go = stop

    pub lock_rule :
        (mutex : Mutex A)
        → (mutex.poisoned ≡ true → Q d Response.internal_server_error)
        → (mutex.poisoned ≡ false → Ends (f mutex.content))
        → Ends (lock mutex d >>= f)
    lock_rule mutex stop go = by_flag mutex.poisoned refl
      where
        by_flag :
            (b : Bool)
            → mutex.poisoned ≡ b
            → Ends (
                (if b then Flow.reply d Response.internal_server_error else Flow.next mutex.content)
                >>= f)
        by_flag true e = stop e
        by_flag false e = go e

  pub bind_rule :
      {A : Type 0} (x : Flow m A) (f : A → Flow m (DsData m × Response))
      → ((d : DsData m) (response : Response) → x ≡ Flow.reply d response → Q d response)
      → ((a : A) → x ≡ Flow.next a → Ends (f a))
      → Ends (x >>= f)
  bind_rule (Flow.next a) f stop go = go a refl
  bind_rule (Flow.reply d response) f stop go = stop d response refl
