-- ===== src/Storage/Tests.antt =====
-- The store with a small format: a number is one byte, a pair is an opening bracket and its parts,
-- and a list of single bytes stands in brackets.
use mls_experimental_analysi.Base.{
  ℕ, ◌+◌, ◌/◌, ◌%◌, ltb, if◌then◌else◌, Bytes, bytes_eq, List, [], ◌∷◌, ◌++◌, Option, none, some,
  ◌≡◌, ◌≢◌, inl, inr, subst, refl, sym, ap, arith,
}
use mls_experimental_analysi.Base.Dict.{lookup, insert}
use mls_experimental_analysi.Storage.{
  Format, Json, Label, build_key_from_vec, Values, ok, write, delete, read, read_list, append,
}
use mls_experimental_analysi.Storage.Queues.{
  queue_proposal, queued_proposal_refs, queued_proposals, clear_proposal_queue,
  write_encryption_epoch_key_pairs, encryption_epoch_key_pairs,
}
use mls_experimental_analysi.Storage.Keys.{reading, first, read-write}
use mls_experimental_analysi.Storage.Proposals.{clear_proposal_queue-clears}
use mls_experimental_analysi.Storage.Epochs.{encryption_epoch_key_pairs-shared}

abbrev byte_of : Bytes → Option ℕ
byte_of [] = none
byte_of (n ∷ rest) = some n

abbrev number : Format ℕ
number = record { to_vec = λ n. some (n ∷ []); from_slice = byte_of }

-- Numbers below 100 as their digits.
abbrev digits : ℕ → Bytes
digits n = if ltb n 10 then (48 + n) ∷ [] else (48 + n / 10) ∷ (48 + n % 10) ∷ []

abbrev decimal : Format ℕ
decimal = record { to_vec = λ n. some (digits n); from_slice = byte_of }

abbrev joined : Option Bytes → Option Bytes → Option Bytes
joined none o = none
joined (some bytes) none = none
joined (some bytes) (some others) = some (bytes ++ others)

module _ {A : Type 0} where
  abbrev all_of : Format A → List A → Option Bytes
  all_of format [] = some []
  all_of format (a ∷ rest) = joined (format.to_vec a) (all_of format rest)

  abbrev each : Option A → Option (List A) → Option (List A)
  each none o = none
  each (some a) none = none
  each (some a) (some rest) = some (a ∷ rest)

  abbrev each_byte : Format A → Bytes → Option (List A)
  each_byte format [] = some []
  each_byte format (x ∷ rest) = each (format.from_slice (x ∷ [])) (each_byte format rest)

  abbrev one_of : Format A → Bytes → Option (Option A)
  one_of format bytes = elim (format.from_slice bytes) [ none ↦ none | some a ↦ some (some a) ]

  abbrev text_of : Format A → Option A → Option Bytes
  text_of format none = some []
  text_of format (some a) = format.to_vec a

abbrev firsts : List Bytes → Bytes
firsts [] = 93 ∷ []
firsts ([] ∷ rest) = firsts rest
firsts ((x ∷ bytes) ∷ rest) = x ∷ firsts rest

abbrev singles : Bytes → List Bytes
singles [] = []
singles (x ∷ []) = []
singles (x ∷ y ∷ rest) = (x ∷ []) ∷ singles (y ∷ rest)

abbrev unbracket : Bytes → Option (List Bytes)
unbracket [] = none
unbracket (x ∷ rest) = some (singles rest)

abbrev json : Json
json = record {
  pair = λ A B f g. record {
    to_vec = λ p. joined (some (91 ∷ [])) (joined (f.to_vec p.0) (g.to_vec p.1));
    from_slice = λ bytes. none;
  };
  vec = λ A f. record { to_vec = all_of f; from_slice = each_byte f };
  option = λ A f. record { to_vec = text_of f; from_slice = one_of f };
  list_to_vec = λ list. 91 ∷ firsts list;
  list_from_slice = unbracket;
  leaf_index = decimal;
}

read-write_example :
    ((read number Label.psk (1 ∷ []) (write Label.psk (1 ∷ []) (7 ∷ []) []).0).1
      ≡ reading number (some (7 ∷ [])))
    × ((read number Label.psk (2 ∷ []) (write Label.psk (1 ∷ []) (7 ∷ []) []).0).1
        ≡ (read number Label.psk (2 ∷ []) []).1)
    × ((read number Label.psk (1 ∷ []) (delete Label.psk (1 ∷ []) []).0).1 ≡ ok none)
    × ((read number Label.psk (2 ∷ []) (delete Label.psk (1 ∷ []) []).0).1
        ≡ (read number Label.psk (2 ∷ []) []).1)
read-write_example =
    read-write number Label.psk Label.psk (1 ∷ []) (2 ∷ []) (7 ∷ []) []
      (inr (λ e. omega (arith, ap first e)))

-- A store in which one proposal is queued for group 5.
abbrev queued : Values
queued = (queue_proposal json number 5 number number 3 9 []).0

psk_label : Label.psk ≢ Label.queued_proposal
psk_label e = subst (λ label. elim label [ Label.psk ↦ Unit {0} | _ ↦ ⊥ ]) e tt

psk_elsewhere : Label.proposal_queue_refs ≢ Label.psk
psk_elsewhere e = subst (λ label. elim label [ Label.proposal_queue_refs ↦ Unit {0} | _ ↦ ⊥ ]) e tt

clear_proposal_queue-clears_example :
    (s' : Values) × (clear_proposal_queue json number 5 number queued ≡ (s', ok tt))
    × (queued_proposals json number 5 number number s' ≡ (s', ok []))
    × ((read number Label.psk (5 ∷ []) s').1 ≡ (read number Label.psk (5 ∷ []) queued).1)
unfolding queue_proposal queued_proposal_refs write append read_list build_key_from_vec lookup
    insert
clear_proposal_queue-clears_example =
    clear_proposal_queue-clears json number number 5
      (λ ref out e. (5 ∷ ref ∷ [], ap (λ o. elim o [ none ↦ out | some b ↦ b ]) (sym e))) number
      number (5 ∷ []) (3 ∷ []) queued Label.psk (5 ∷ []) refl refl ((91 ∷ 5 ∷ 3 ∷ [], refl), tt)
      psk_label (inl psk_elsewhere)

-- The first epoch with leaf 23, and the twelfth with leaf 3.
encryption_epoch_key_pairs-shared_example :
    (s' : Values) × (write_encryption_epoch_key_pairs json number 5 decimal 1 23 number (8 ∷ []) []
      ≡ (s', ok tt))
    × (encryption_epoch_key_pairs json number 5 decimal 12 3 number s' ≡ (s', ok (8 ∷ [])))
encryption_epoch_key_pairs-shared_example =
    encryption_epoch_key_pairs-shared json number decimal 5 number 1 12 23 3 (8 ∷ []) [] (5 ∷ [])
      (49 ∷ []) (49 ∷ 50 ∷ []) (50 ∷ 51 ∷ []) (51 ∷ []) (8 ∷ []) refl refl refl refl refl refl refl
      refl
