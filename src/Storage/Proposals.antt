-- ===== src/Storage/Proposals.antt =====
-- Clearing the queue of proposals in emulated_client/src/provider/null_storage_provider.rs.
use mls_experimental_analysi.Base.{
  Bytes, bytes_eq, ==-ne, List, [], ◌∷◌, All, none, some, ◌≡◌, ◌≢◌, refl, sym, ◌∙◌, if_then,
  if_else, ==_iff,
}
use mls_experimental_analysi.Base.Dict.{lookup, erase, lookup-erase}
use mls_experimental_analysi.Storage.{
  Format, Json, Label, build_key_from_vec, Values, ◌>>=◌, bind-ok, remove, ok, read_list, read,
}
use mls_experimental_analysi.Storage.Provider.{build_key}
use mls_experimental_analysi.Storage.Queues.{
  pair_key, queued_proposal_refs, queued_proposals, proposals, remove_proposals,
  clear_proposal_queue,
}
use mls_experimental_analysi.Storage.Keys.{
  Elsewhere, build_key_from_vec-Elsewhere, build_key_from_vec-ne, read-reading,
}

-- The same entries under all labels and keys.
abbrev SameEntries : Values → Values → Type 0
SameEntries s s' =
    (label : Label) (key : Bytes)
    → lookup (build_key_from_vec label key) s' ≡ lookup (build_key_from_vec label key) s

module _ (json : Json) {A R : Type 0} (id_format : Format A) (ref_format : Format R) (group_id : A)
    (arrays : (ref : R) (out : Bytes)
      → pair_key json id_format group_id ref_format ref ≡ some out
      → (rest : Bytes) × (out ≡ 91 ∷ rest)) where
  -- A reference that can be written, in its pair with the group.
  abbrev pub Written : R → Type 0
  Written ref = (out : Bytes) × (pair_key json id_format group_id ref_format ref ≡ some out)

  remove_proposals-keeps :
      (refs : List R) (s : Values)
      → All Written refs
      → (s' : Values) × (remove_proposals json id_format group_id ref_format refs s ≡ (s', ok tt))
        × SameEntries s s'
  unfolding remove_proposals
  remove_proposals-keeps [] s h = (s, refl, λ label key. refl)
  remove_proposals-keeps (ref ∷ refs) s ((out, written), h) =
      let (rest, starts) = arrays ref out written in
      let (s', e, same) = remove_proposals-keeps refs (erase out s) h in
      (
        s',
        rw (written, e) refl,
        λ label key.
            same label key
            ∙ lookup-erase out (build_key_from_vec label key) s
            ∙ rw
                (==-ne {a = out} {b = build_key_from_vec label key}
                  (λ eq. build_key_from_vec-ne label key rest (sym eq ∙ starts)))
                refl,
      )

  cleared :
      (id : Bytes) (refs : List R) (s s' : Values)
      → id_format.to_vec group_id ≡ some id
      → queued_proposal_refs json id_format group_id ref_format s ≡ (s, ok refs)
      → remove_proposals json id_format group_id ref_format refs s ≡ (s', ok tt)
      → clear_proposal_queue json id_format group_id ref_format s
        ≡ (erase (build_key_from_vec Label.proposal_queue_refs id) s', ok tt)
  unfolding clear_proposal_queue
  cleared id refs s s' written listed e =
      bind-ok (queued_proposal_refs json id_format group_id ref_format)
        (λ refs.
          remove_proposals json id_format group_id ref_format refs
          >>= (λ _. build_key id_format Label.proposal_queue_refs group_id >>= (λ key. remove key)))
        s s refs listed
      ∙ bind-ok (remove_proposals json id_format group_id ref_format refs)
          (λ _. build_key id_format Label.proposal_queue_refs group_id >>= (λ key. remove key)) s s'
          tt e
      ∙ rw written refl

  no_refs :
      (id : Bytes) (s : Values)
      → id_format.to_vec group_id ≡ some id
      → lookup (build_key_from_vec Label.proposal_queue_refs id) s ≡ none
      → queued_proposal_refs json id_format group_id ref_format s ≡ (s, ok [])
  unfolding queued_proposal_refs read_list
  no_refs id s written gone = rw (written, gone) refl

  -- If the references to the queued proposals of a group can be read and each can be written in its
  -- pair with the group, as a text that begins with a bracket, then `clear_proposal_queue`
  -- succeeds, the group has no queued proposals afterwards, and what is read of any other entry
  -- that is no queued proposal is as before.
  pub clear_proposal_queue-clears :
      {P B : Type 0} (format : Format P) (other_format : Format B) (id : Bytes) (refs : List R)
      (s : Values) (label : Label) (key : Bytes)
      → id_format.to_vec group_id ≡ some id
      → queued_proposal_refs json id_format group_id ref_format s ≡ (s, ok refs)
      → All Written refs
      → label ≢ Label.queued_proposal
      → Elsewhere Label.proposal_queue_refs label id key
      → (s' : Values) × (clear_proposal_queue json id_format group_id ref_format s ≡ (s', ok tt))
        × (queued_proposals json id_format group_id ref_format format s' ≡ (s', ok []))
        × ((read other_format label key s').1 ≡ (read other_format label key s).1)
  unfolding queued_proposals proposals
  clear_proposal_queue-clears format other_format id refs s label key written listed h another
        elsewhere =
      let (s', e, same) = remove_proposals-keeps refs s h in
      let k = build_key_from_vec Label.proposal_queue_refs id in
      let kept : lookup (build_key_from_vec label key) (erase k s')
          ≡ lookup (build_key_from_vec label key) s =
        lookup-erase k (build_key_from_vec label key) s'
        ∙ if_else none _
            (==-ne (build_key_from_vec-Elsewhere Label.proposal_queue_refs label id key elsewhere))
        ∙ same label key in
      (
        erase k s',
        cleared id refs s s' written listed e,
        bind-ok (queued_proposal_refs json id_format group_id ref_format)
            (λ refs. proposals json id_format group_id ref_format format refs) (erase k s')
            (erase k s') []
            (no_refs id (erase k s') written
              (lookup-erase k k s' ∙ if_then none (lookup k s') ((==_iff k k).1 refl))),
        read-reading other_format label key _ _ kept
            ∙ sym (read-reading other_format label key s _ refl),
      )
