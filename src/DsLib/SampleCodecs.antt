-- ===== src/DsLib/SampleCodecs.antt =====
-- Codecs in which a list is written after its length and a variant after its number.
use mls_experimental_analysi.Base.{
  ℕ, zero, suc, ◌+◌, Bytes, List, [], ◌∷◌, ◌++◌, Option, none, some, ◌⊎◌, inl, inr, ◌≡◌, refl, sym,
  ap, arith, length,
}
use mls_experimental_analysi.DsLib.Codec.{Read, got, failed, Codec, ◌>>=◌, pure, ◌then_write◌}
use mls_experimental_analysi.DsLib.RoundTrips.{RoundTrips, read-then_write}
use mls_experimental_analysi.DsLib.Sizes.{IsSized, length-then_write}

abbrev read_number : Bytes → Read ℕ
read_number [] = failed
read_number (n ∷ rest) = got n rest

abbrev pub number : Codec ℕ
number = record { size = λ n. 1; write = λ n. some (n ∷ []); read = read_number }

of_some : {A : Type 0} {a b : A} → some a ≡ some b → a ≡ b
of_some e = cc

pub number-RoundTrips : RoundTrips number
number-RoundTrips = record {
  back = λ n out rest e. ap (λ o. read_number (o ++ rest)) (sym (of_some e));
}

pub number-IsSized : IsSized number
number-IsSized = record { counted = λ n out e. ap length (sym (of_some e)) }

module _ {A : Type 0} (c : Codec A) where
  abbrev sizes : List A → ℕ
  sizes [] = 0
  sizes (x ∷ xs) = c.size x + sizes xs

  abbrev write_all : List A → Option Bytes
  write_all [] = some []
  write_all (x ∷ xs) = c.write x then_write write_all xs

  abbrev read_all : ℕ → Bytes → Read (List A)
  read_all zero = pure []
  read_all (suc n) = do x ← c.read; xs ← read_all n; pure (x ∷ xs)

  -- A list after its length.
  abbrev pub counted : Codec (List A)
  counted = record {
    size = λ xs. suc (sizes xs);
    write = λ xs. some (length xs ∷ []) then_write write_all xs;
    read = (do n ← read_number; read_all n);
  }

  read_all-write_all :
      RoundTrips c
      → (xs : List A) (out rest : Bytes) → write_all xs ≡ some out
      → read_all (length xs) (out ++ rest) ≡ got xs rest
  read_all-write_all law [] out rest e = ap (λ o. got [] (o ++ rest)) (sym (of_some e))
  read_all-write_all law (x ∷ xs) out rest e =
      let (b, others, first) = read-then_write c law x (write_all xs) out rest e in
      rw (◌>>=◌, first, read_all-write_all law xs b rest others) refl

  pub counted-RoundTrips : RoundTrips c → RoundTrips counted
  counted-RoundTrips law = record {
    back = λ xs out rest e.
        let (b, others, first) =
          read-then_write number number-RoundTrips (length xs) (write_all xs) out rest e in
        rw (◌>>=◌, first) (read_all-write_all law xs b rest others);
  }

  length-write_all :
      IsSized c → (xs : List A) (out : Bytes) → write_all xs ≡ some out → length out ≡ sizes xs
  length-write_all law [] out e = ap length (sym (of_some e))
  length-write_all law (x ∷ xs) out e =
      let (b, others, n) = length-then_write c law x (write_all xs) out e in
      omega (arith, length-write_all law xs b others)

  pub counted-IsSized : IsSized c → IsSized counted
  counted-IsSized law = record {
    counted = λ xs out e.
        let (b, others, n) =
          length-then_write number number-IsSized (length xs) (write_all xs) out e in
        omega (arith, length-write_all law xs b others);
  }

module _ {A B : Type 0} (c : Codec A) (d : Codec B) where
  abbrev pub both : Codec (A × B)
  both = record {
    size = λ p. c.size p.0 + d.size p.1;
    write = λ p. c.write p.0 then_write d.write p.1;
    read = (do a ← c.read; b ← d.read; pure (a, b));
  }

  pub both-RoundTrips : RoundTrips c → RoundTrips d → RoundTrips both
  both-RoundTrips lc ld = record {
    back = λ p out rest e.
        let (b, others, first) = read-then_write c lc p.0 (d.write p.1) out rest e in
        rw (◌>>=◌, first, ld.back p.1 b rest others) refl;
  }

  pub both-IsSized : IsSized c → IsSized d → IsSized both
  both-IsSized lc ld = record {
    counted = λ p out e.
        let (b, others, n) = length-then_write c lc p.0 (d.write p.1) out e in
        omega (arith, ld.counted p.1 b others);
  }

  abbrev write_either : A ⊎ B → Option Bytes
  write_either (inl a) = some (0 ∷ []) then_write c.write a
  write_either (inr b) = some (1 ∷ []) then_write d.write b

  abbrev size_either : A ⊎ B → ℕ
  size_either (inl a) = suc (c.size a)
  size_either (inr b) = suc (d.size b)

  abbrev read_tagged : ℕ → Bytes → Read (A ⊎ B)
  read_tagged zero = do a ← c.read; pure (inl a)
  read_tagged (suc n) = do b ← d.read; pure (inr b)

  -- A variant after its number.
  abbrev pub either : Codec (A ⊎ B)
  either = record {
    size = size_either;
    write = write_either;
    read = (do n ← read_number; read_tagged n);
  }

  pub either-RoundTrips : RoundTrips c → RoundTrips d → RoundTrips either
  either-RoundTrips lc ld = record { back = by_case }
    where
      by_case :
          (x : A ⊎ B) (out rest : Bytes)
          → either.write x ≡ some out
          → either.read (out ++ rest) ≡ got x rest
      by_case (inl a) out rest e =
          let (b, others, first) =
            read-then_write number number-RoundTrips 0 (c.write a) out rest e in
          rw (◌>>=◌, first, lc.back a b rest others) refl
      by_case (inr a) out rest e =
          let (b, others, first) =
            read-then_write number number-RoundTrips 1 (d.write a) out rest e in
          rw (◌>>=◌, first, ld.back a b rest others) refl

  pub either-IsSized : IsSized c → IsSized d → IsSized either
  either-IsSized lc ld = record { counted = by_case }
    where
      by_case : (x : A ⊎ B) (out : Bytes) → either.write x ≡ some out → length out ≡ either.size x
      by_case (inl a) out e =
          let (b, others, n) = length-then_write number number-IsSized 0 (c.write a) out e in
          omega (arith, lc.counted a b others)
      by_case (inr a) out e =
          let (b, others, n) = length-then_write number number-IsSized 1 (d.write a) out e in
          omega (arith, ld.counted a b others)

abbrev nothing : Codec (Unit {0})
nothing = record { size = λ u. 0; write = λ u. some []; read = pure tt }

nothing-RoundTrips : RoundTrips nothing
nothing-RoundTrips = record {
  back = λ u out rest e. ap (λ o. got tt (o ++ rest)) (sym (of_some e));
}

nothing-IsSized : IsSized nothing
nothing-IsSized = record { counted = λ u out e. ap length (sym (of_some e)) }

abbrev to_either : {A : Type 0} → Option A → Unit {0} ⊎ A
to_either none = inl tt
to_either (some a) = inr a

abbrev of_either : {A : Type 0} → Unit {0} ⊎ A → Option A
of_either (inl u) = none
of_either (inr a) = some a

of_either-to_either : {A : Type 0} (o : Option A) → of_either (to_either o) ≡ o
of_either-to_either none = refl
of_either-to_either (some a) = refl

abbrev pub optional : (A : Type 0) → Codec A → Codec (Option A)
optional A c = record {
  size = λ o. (either nothing c).size (to_either o);
  write = λ o. (either nothing c).write (to_either o);
  read = (do x ← (either nothing c).read; pure (of_either x));
}

pub optional-RoundTrips : (A : Type 0) (c : Codec A) → RoundTrips c → RoundTrips (optional A c)
optional-RoundTrips A c law = record {
  back = λ o out rest e.
      rw (◌>>=◌, (either-RoundTrips nothing c nothing-RoundTrips law).back (to_either o) out rest e)
        (ap (λ x. got x rest) (of_either-to_either o));
}

pub optional-IsSized : (A : Type 0) (c : Codec A) → IsSized c → IsSized (optional A c)
optional-IsSized A c law = record {
  counted = λ o out e. (either-IsSized nothing c nothing-IsSized law).counted (to_either o) out e;
}
