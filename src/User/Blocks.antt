-- ===== src/User/Blocks.antt =====
-- How the blocks of the methods of emulated_client/src/user.rs run, and what holds after them.
use mls_experimental_analysi.Base.{
  String, string_eq, ◌≡◌, ap, Outcome, returns, panics, spins, Result, ok, err, Post,
}
use mls_experimental_analysi.DsLib.{Mls}
use mls_experimental_analysi.Agent.{Timing}
use mls_experimental_analysi.User.{Library, User}
use mls_experimental_analysi.User.Monad.{Method, ◌>>=◌}

module _ {m : Mls} {t : Timing} {l : Library m t} {A B : Type 0} where
  -- The rest of a block runs where its first part has ended.
  pub >>=-runs :
      (x : Method l A) (k : A → Method l B) (u u' : User l) (a : A)
      → x u ≡ returns (u', ok a)
      → (x >>= k) u ≡ k a u'
  unfolding ◌>>=◌
  >>=-runs x k u u' a runs = ap after runs
    where
      after : Outcome (User l × Result A) → Outcome (User l × Result B)
      after (returns (u', ok a)) = k a u'
      after (returns (u', err e)) = returns (u', err e)
      after panics = panics
      after spins = spins

  -- How to show what holds after a block: an error ends it, and else the rest of it follows.
  pub Post-then :
      (P : User l × Result A → Type 0) (Q : User l × Result B → Type 0) (x : Method l A)
      (k : A → Method l B) (u : User l)
      → Post P (x u)
      → ((u' : User l) (e : String) → P (u', err e) → Q (u', err e))
      → ((u' : User l) (a : A) → P (u', ok a) → Post Q (k a u'))
      → Post Q ((x >>= k) u)
  unfolding ◌>>=◌
  Post-then P Q x k u h bad good = by_outcome (x u) h
    where
      by_outcome :
          (o : Outcome (User l × Result A))
          → Post P o
          → Post {A = User l × Result B} Q (elim o [
            | returns (u', result) ↦ elim result [ ok a ↦ k a u' | err e ↦ returns (u', err e) ]
            | panics ↦ panics
            | spins ↦ spins
          ])
      by_outcome (returns (u', ok a)) h = good u' a h
      by_outcome (returns (u', err e)) h = bad u' e h
      by_outcome panics h = tt
      by_outcome spins h = tt
