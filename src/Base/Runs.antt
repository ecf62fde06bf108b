-- ===== src/Base/Runs.antt =====
-- The end of a piece of code that may panic, or that may run in a loop for ever, and the
-- program's results with a text as the error.
use Prim.Native.String.{String}
use mathlib.Core.Path.{◌≡◌, refl}
use mathlib.Core.Bool.{Bool, true, false}
use mls_experimental_analysi.Base.Tests.{if◌then◌else◌}

pub data Outcome {ℓ} (A : Type ℓ) : Type ℓ where
  returns : A → Outcome A
  -- a Rust panic: an index out of bounds, an empty range, an `unwrap` of nothing
  panics : Outcome A
  -- the fuel of a loop ran out
  spins : Outcome A

infixl 5 ◌>>=◌
abbrev pub ◌>>=◌ {ℓ κ} : {A : Type ℓ} {B : Type κ} → Outcome A → (A → Outcome B) → Outcome B
returns a >>= f = f a
panics >>= f = panics
spins >>= f = spins

-- A run that returned went through its first part.
pub >>=-eq-returns {ℓ κ} :
    {A : Type ℓ} {B : Type κ} (m : Outcome A) (f : A → Outcome B) {b : B}
    → (m >>= f) ≡ returns b
    → (a : A) × (m ≡ returns a) × (f a ≡ returns b)
>>=-eq-returns (returns a) f h = (a, refl, h)
>>=-eq-returns panics f h = cc
>>=-eq-returns spins f h = cc

-- A code that returns does so with a value that satisfies the predicate.
abbrev pub Post : {A : Type 0} → (A → Type 0) → Outcome A → Type 0
Post Q (returns a) = Q a
Post Q panics = Unit
Post Q spins = Unit

pub bind_rule :
    {A B : Type 0} (P : A → Type 0) (Q : B → Type 0) (x : Outcome A) (k : A → Outcome B)
    → Post P x
    → ((a : A) → P a → Post Q (k a))
    → Post Q (x >>= k)
bind_rule P Q (returns a) k h go = go a h
bind_rule P Q panics k h go = tt
bind_rule P Q spins k h go = tt

pub Post-map :
    {A : Type 0} {P Q : A → Type 0} → ((a : A) → P a → Q a) → (x : Outcome A) → Post P x → Post Q x
Post-map f (returns a) h = f a h
Post-map f panics h = tt
Post-map f spins h = tt

pub any_rule : {A : Type 0} (x : Outcome A) → Post (λ _. Unit {0}) x
any_rule (returns a) = tt
any_rule panics = tt
any_rule spins = tt

pub if_rule :
    {B : Type 0} (Q : B → Type 0) (b : Bool) (x y : Outcome B)
    → Post Q x
    → Post Q y
    → Post Q (if b then x else y)
if_rule Q true x y hx hy = hx
if_rule Q false x y hx hy = hy

-- `Result<A, String>`.
pub data Result {ℓ} (A : Type ℓ) : Type ℓ where
  ok : A → Result A
  err : String → Result A
