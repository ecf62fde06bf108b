-- ===== src/Storage/Keys.antt =====
-- The keys of the entries in emulated_client/src/provider/null_storage_provider.rs: no label begins
-- another one, so that an entry belongs to one label and one key.
use mathlib.Core.List.{append_cancel_right}
use mls_experimental_analysi.Base.{
  if_then, ==_iff, ℕ, ◌<◌, Bytes, nat_eq, bytes_eq, ◌==◌, ==-ne, List, [], ◌∷◌, ◌++◌, Option, none,
  some, ◌≡◌, ◌≢◌, ◌⊎◌, inl, inr, refl, sym, ap, subst, ◌∙◌, arith, if◌then◌else◌,
}
use mls_experimental_analysi.Base.Dict.{lookup, lookup-insert, lookup-insert_self, lookup-erase}
use mls_experimental_analysi.Storage.{
  Format, Label, label_bytes, version_bytes, build_key_from_vec, Values, Answer, ok, write, delete,
  read, stored, ◌>>=◌, or_error, pure,
}

-- What follows a label.
abbrev strip : Bytes → Bytes → Option Bytes
strip [] bytes = some bytes
strip (x ∷ label) [] = none
strip (x ∷ label) (y ∷ bytes) = if x == y then strip label bytes else none

abbrev split : List Label → Bytes → Option (Label × Bytes)
split [] bytes = none
split (label ∷ labels) bytes = elim (strip (label_bytes label) bytes) [
  | some rest ↦ some (label, rest)
  | none ↦ split labels bytes
]

abbrev labels : List Label
labels =
    Label.key_package ∷ Label.psk ∷ Label.encryption_key_pair ∷ Label.signature_key_pair
    ∷ Label.epoch_key_pairs ∷ Label.tree ∷ Label.group_context ∷ Label.interim_transcript_hash
    ∷ Label.confirmation_tag ∷ Label.join_config ∷ Label.own_leaf_nodes ∷ Label.group_state
    ∷ Label.queued_proposal ∷ Label.proposal_queue_refs ∷ Label.own_leaf_node_index
    ∷ Label.epoch_secrets ∷ Label.resumption_psk_store ∷ Label.message_secrets ∷ []

split-label :
    (label : Label) (rest : Bytes) → split labels (label_bytes label ++ rest) ≡ some (label, rest)
split-label Label.key_package rest = refl
split-label Label.psk rest = refl
split-label Label.encryption_key_pair rest = refl
split-label Label.signature_key_pair rest = refl
split-label Label.epoch_key_pairs rest = refl
split-label Label.tree rest = refl
split-label Label.group_context rest = refl
split-label Label.interim_transcript_hash rest = refl
split-label Label.confirmation_tag rest = refl
split-label Label.join_config rest = refl
split-label Label.own_leaf_nodes rest = refl
split-label Label.group_state rest = refl
split-label Label.queued_proposal rest = refl
split-label Label.proposal_queue_refs rest = refl
split-label Label.own_leaf_node_index rest = refl
split-label Label.epoch_secrets rest = refl
split-label Label.resumption_psk_store rest = refl
split-label Label.message_secrets rest = refl

-- The first byte of a label is a capital letter.
abbrev pub first : Bytes → ℕ
first [] = 0
first (x ∷ rest) = x

first-lt : (label : Label) (rest : Bytes) → first (label_bytes label ++ rest) < 91
first-lt Label.key_package rest = omega arith
first-lt Label.psk rest = omega arith
first-lt Label.encryption_key_pair rest = omega arith
first-lt Label.signature_key_pair rest = omega arith
first-lt Label.epoch_key_pairs rest = omega arith
first-lt Label.tree rest = omega arith
first-lt Label.group_context rest = omega arith
first-lt Label.interim_transcript_hash rest = omega arith
first-lt Label.confirmation_tag rest = omega arith
first-lt Label.join_config rest = omega arith
first-lt Label.own_leaf_nodes rest = omega arith
first-lt Label.group_state rest = omega arith
first-lt Label.queued_proposal rest = omega arith
first-lt Label.proposal_queue_refs rest = omega arith
first-lt Label.own_leaf_node_index rest = omega arith
first-lt Label.epoch_secrets rest = omega arith
first-lt Label.resumption_psk_store rest = omega arith
first-lt Label.message_secrets rest = omega arith

pub build_key_from_vec-injective :
    (label label' : Label) (key key' : Bytes)
    → build_key_from_vec label key ≡ build_key_from_vec label' key'
    → (label ≡ label') × (key ≡ key')
unfolding build_key_from_vec
build_key_from_vec-injective label label' key key' e =
    let bytes : label_bytes label ++ (key ++ version_bytes)
        ≡ label_bytes label' ++ (key' ++ version_bytes) =
      e in
    let parts : some (label, key ++ version_bytes) ≡ some (label', key' ++ version_bytes) =
      sym (split-label label (key ++ version_bytes))
      ∙ ap (split labels) bytes
      ∙ split-label label' (key' ++ version_bytes) in
    (
      ap (λ o. elim o [ none ↦ label | some p ↦ p.0 ]) parts,
      append_cancel_right key key' version_bytes
          (ap (λ o. elim o [ none ↦ [] | some p ↦ p.1 ]) parts),
    )

-- A key is never the text of a pair.
pub build_key_from_vec-ne :
    (label : Label) (key rest : Bytes) → build_key_from_vec label key ≢ 91 ∷ rest
unfolding build_key_from_vec
build_key_from_vec-ne label key rest e =
    let same : first (label_bytes label ++ (key ++ version_bytes)) ≡ 91 = ap first e in
    let lt : 91 < 91 = subst (λ n. n < 91) same (first-lt label (key ++ version_bytes)) in
    omega (arith, lt)

-- An entry of another label or another key.
abbrev pub Elsewhere : Label → Label → Bytes → Bytes → Type 0
Elsewhere label label' key key' = (label ≢ label') ⊎ (key ≢ key')

pub build_key_from_vec-Elsewhere :
    (label label' : Label) (key key' : Bytes)
    → Elsewhere label label' key key'
    → build_key_from_vec label key ≢ build_key_from_vec label' key'
build_key_from_vec-Elsewhere label label' key key' (inl other) e =
    other (build_key_from_vec-injective label label' key key' e).0
build_key_from_vec-Elsewhere label label' key key' (inr other) e =
    other (build_key_from_vec-injective label label' key key' e).1

module _ {A : Type 0} (format : Format A) where
  -- What is read of an entry.
  abbrev pub reading : Option Bytes → Answer (Option A)
  reading o = (stored format o []).1

  stored-reading : (o : Option Bytes) (s : Values) → (stored format o s).1 ≡ reading o
  stored-reading none s = refl
  stored-reading (some value) s = by_case (format.from_slice value)
    where
      by_case :
          (r : Option A)
          → ((or_error r >>= (λ a. pure (some a))) s).1
            ≡ ((or_error r >>= (λ a. pure (some a))) []).1
      by_case none = refl
      by_case (some a) = refl

  pub read-reading :
      (label : Label) (key : Bytes) (s : Values) (o : Option Bytes)
      → lookup (build_key_from_vec label key) s ≡ o
      → (read format label key s).1 ≡ reading o
  unfolding read
  read-reading label key s o e =
      stored-reading (lookup (build_key_from_vec label key) s) s ∙ ap reading e

  -- The store keeps one entry for each label and key: what was written is read back, what was
  -- deleted is read as absent, and neither changes what is read under another label or another key,
  -- although labels and keys are joined without a separator.
  pub read-write :
      (label label' : Label) (key key' value : Bytes) (s : Values)
      → Elsewhere label label' key key'
      → ((read format label key (write label key value s).0).1 ≡ reading (some value))
        × ((read format label' key' (write label key value s).0).1 ≡ (read format label' key' s).1)
        × ((read format label key (delete label key s).0).1 ≡ ok none)
        × ((read format label' key' (delete label key s).0).1 ≡ (read format label' key' s).1)
  unfolding write delete
  read-write label label' key key' value s other =
      let k = build_key_from_vec label key in
      let k' = build_key_from_vec label' key' in
      let ne = ==-ne (build_key_from_vec-Elsewhere label label' key key' other) in
      let kept : (o : Option Bytes) → (if k == k' then o else lookup k' s) ≡ lookup k' s =
        λ o. rw ne refl in
      let same = read-reading label' key' s (lookup k' s) refl in
      (
        read-reading label key _ (some value) (lookup-insert_self k value s),
        read-reading label' key' _ (lookup k' s) (lookup-insert k k' value s ∙ kept (some value))
            ∙ sym same,
        read-reading label key _ none (lookup-erase k k s ∙ if_then none _ ((==_iff k k).1 refl)),
        read-reading label' key' _ (lookup k' s) (lookup-erase k k' s ∙ kept none) ∙ sym same,
      )
