-- ===== src/Storage/Epochs.antt =====
-- The key pairs of an epoch in emulated_client/src/provider/null_storage_provider.rs.
use mls_experimental_analysi.Base.{ℕ, Bytes, bytes_eq, List, ◌++◌, some, ◌≡◌, refl, sym, ◌∙◌}
use mls_experimental_analysi.Base.Dict.{insert, lookup-insert_self}
use mls_experimental_analysi.Storage.{
  Format, Json, Label, build_key_from_vec, Values, ok, ◌>>=◌, bind-ok, or_error, get, write,
}
use mls_experimental_analysi.Storage.Queues.{
  epoch_key_pairs_id, write_encryption_epoch_key_pairs, encryption_epoch_key_pairs, listed,
}

module _ (json : Json) {A E : Type 0} (id_format : Format A) (epoch_format : Format E)
    (group_id : A) where
  epoch_key_pairs_id-ok :
      (epoch : E) (leaf : ℕ) (s : Values) (id e l : Bytes)
      → id_format.to_vec group_id ≡ some id
      → epoch_format.to_vec epoch ≡ some e
      → json.leaf_index.to_vec leaf ≡ some l
      → epoch_key_pairs_id json id_format group_id epoch_format epoch leaf s
        ≡ (s, ok (id ++ e ++ l))
  unfolding epoch_key_pairs_id
  epoch_key_pairs_id-ok epoch leaf s id e l one two three = rw (one, two, three) refl

  -- Key pairs that are written for an epoch and a leaf, and can be read back from what is written,
  -- are what is read for every epoch and leaf whose texts are the same when joined, be they the
  -- same ones or others.
  pub encryption_epoch_key_pairs-shared :
      {B : Type 0} (format : Format B) (epoch epoch' : E) (leaf leaf' : ℕ) (pairs : List B)
      (s : Values) (id e e' l l' out : Bytes)
      → id_format.to_vec group_id ≡ some id
      → epoch_format.to_vec epoch ≡ some e
      → epoch_format.to_vec epoch' ≡ some e'
      → json.leaf_index.to_vec leaf ≡ some l
      → json.leaf_index.to_vec leaf' ≡ some l'
      → (json.vec B format).to_vec pairs ≡ some out
      → (json.vec B format).from_slice out ≡ some pairs
      → id ++ e ++ l ≡ id ++ e' ++ l'
      → (s' : Values) × (write_encryption_epoch_key_pairs json id_format group_id epoch_format epoch
            leaf format pairs s
          ≡ (s', ok tt))
        × (encryption_epoch_key_pairs json id_format group_id epoch_format epoch' leaf' format s'
            ≡ (s', ok pairs))
  unfolding write_encryption_epoch_key_pairs encryption_epoch_key_pairs write
  encryption_epoch_key_pairs-shared format epoch epoch' leaf leaf' pairs s id e e' l l' out a b b' c
        c' written back same =
      let k = build_key_from_vec Label.epoch_key_pairs (id ++ e ++ l) in
      let s' = insert k out s in
      (
        s',
        bind-ok (epoch_key_pairs_id json id_format group_id epoch_format epoch leaf)
              (λ key.
                or_error ((json.vec _ format).to_vec pairs)
                >>= (λ value. write Label.epoch_key_pairs key value))
              s s (id ++ e ++ l) (epoch_key_pairs_id-ok epoch leaf s id e l a b c)
            ∙ rw written refl,
        bind-ok (epoch_key_pairs_id json id_format group_id epoch_format epoch' leaf')
              (λ key.
                get (build_key_from_vec Label.epoch_key_pairs key)
                >>= (λ value. listed json format value))
              s' s' (id ++ e' ++ l') (epoch_key_pairs_id-ok epoch' leaf' s' id e' l' a b' c')
            ∙ rw (sym same, lookup-insert_self k out s, back) refl,
      )
