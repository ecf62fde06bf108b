-- ===== src/DsLib/SampleText.antt =====
-- Texts as lists of their code points.
use Prim.Native.Nat.{compare, Ordering}
use Prim.Native.Char.{Char, char, code, IsLt}
use Prim.Native.String
use Prim.Native.String.append
use text.Mathlib.TextEquality.{IsScalar-prop}
use mls_experimental_analysi.Base.{
  ℕ, String, Bytes, [], ◌∷◌, ◌++◌, Option, none, some, ◌≡◌, refl, ap, ◌∙◌,
}

-- The two helpers of `IsScalar`.
abbrev BothLt : Ordering → Ordering → Type 0
BothLt Ordering.lt o = IsLt o
BothLt Ordering.eq _ = ⊥
BothLt Ordering.gt _ = ⊥

abbrev Scalar : Ordering → Ordering → Ordering → Type 0
Scalar Ordering.lt _ _ = Unit
Scalar Ordering.eq o p = BothLt o p
Scalar Ordering.gt o p = BothLt o p

abbrev is_lt : (o : Ordering) → Option (IsLt o)
is_lt Ordering.lt = some tt
is_lt Ordering.eq = none
is_lt Ordering.gt = none

abbrev are_lt : (o p : Ordering) → Option (BothLt o p)
are_lt Ordering.lt p = is_lt p
are_lt Ordering.eq p = none
are_lt Ordering.gt p = none

abbrev is_scalar : (o p q : Ordering) → Option (Scalar o p q)
is_scalar Ordering.lt p q = some tt
is_scalar Ordering.eq p q = are_lt p q
is_scalar Ordering.gt p q = are_lt p q

are_lt-some : (o p : Ordering) (h : BothLt o p) → (k : BothLt o p) × (are_lt o p ≡ some k)
are_lt-some Ordering.lt Ordering.lt h = (tt, refl)
are_lt-some Ordering.lt Ordering.eq h = absurd h
are_lt-some Ordering.lt Ordering.gt h = absurd h
are_lt-some Ordering.eq p h = absurd h
are_lt-some Ordering.gt p h = absurd h

is_scalar-some :
    (o p q : Ordering) (h : Scalar o p q) → (k : Scalar o p q) × (is_scalar o p q ≡ some k)
is_scalar-some Ordering.lt p q h = (tt, refl)
is_scalar-some Ordering.eq p q h = are_lt-some p q h
is_scalar-some Ordering.gt p q h = are_lt-some p q h

character : ℕ → Option Char
character n = elim (is_scalar (compare n 55296) (compare 57343 n) (compare n 1114112)) [
  | none ↦ none
  | some h ↦ some (char n h)
]

character-code : (c : Char) → character (code c) ≡ some c
unfolding character
character-code (char n h) =
    let (k, e) = is_scalar-some (compare n 55296) (compare 57343 n) (compare n 1114112) h in
    rw (e, character) (ap (λ p. some (char n p)) (IsScalar-prop n k h))

abbrev pub codes : String → Bytes
codes String.[] = []
codes (String.◌∷◌ c s) = code c ∷ codes s

abbrev more : Option Char → Option String → Option String
more none s = none
more (some c) none = none
more (some c) (some s) = some (String.◌∷◌ c s)

pub of_codes : Bytes → Option String
of_codes [] = some ""
of_codes (n ∷ rest) = more (character n) (of_codes rest)

pub of_codes-codes : (s : String) → of_codes (codes s) ≡ some s
unfolding of_codes
of_codes-codes String.[] = refl
of_codes-codes (String.◌∷◌ c s) = rw (character-code c, of_codes-codes s) refl

pub of_codes_lossy : Bytes → String
of_codes_lossy bytes = elim (of_codes bytes) [ none ↦ "" | some s ↦ s ]

pub of_codes_lossy-codes : (s : String) → of_codes_lossy (codes s) ≡ s
unfolding of_codes_lossy
of_codes_lossy-codes s = rw (of_codes_lossy, of_codes-codes s) refl

pub codes-append : (s t : String) → codes (String.◌++◌ s t) ≡ codes s ++ codes t
codes-append String.[] t = ap codes (append.nil t)
codes-append (String.◌∷◌ c s) t =
    ap codes (append.cons c s t) ∙ ap (λ r. code c ∷ r) (codes-append s t)
