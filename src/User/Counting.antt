-- ===== src/User/Counting.antt =====
-- The number of proposals that the user of emulated_client/src/user.rs can commit.
use mls_experimental_analysi.Base.{
  ℕ, ◌+◌, String, string_eq, Bool, true, false, not, if◌then◌else◌, List, [], ◌∷◌, length, retain,
  some, ◌≡◌, refl, ap, ◌∙◌, arith, returns, ok,
}
use mls_experimental_analysi.Base.Dict.{lookup}
use mls_experimental_analysi.DsLib.{Mls}
use mls_experimental_analysi.Agent.{Timing}
use mls_experimental_analysi.User.{Library, User, Group}
use mls_experimental_analysi.User.Monad.{lift, ok_or, group_or}
use mls_experimental_analysi.User.Blocks.{>>=-runs}
use mls_experimental_analysi.User.Messages.{checked_sub}
use mls_experimental_analysi.User.Proposals.{
  removes, own_removals, invalid_proposals, pending_proposals,
}

module _ {m : Mls} {t : Timing} (l : Library m t) where
  -- The proposals of a group that do not remove the user itself.
  abbrev pub valid_proposals : l.MlsGroup → List l.Queued
  valid_proposals group =
      retain (λ p. not (removes (l.own_leaf_index group) (l.queued_proposal p)))
        (l.pending_proposals group)

  own_removals-count :
      (own : ℕ) (ps : List l.Queued)
      → length ps
        ≡ length (own_removals l own ps)
          + length (retain (λ p. not (removes own (l.queued_proposal p))) ps)
  own_removals-count own [] = refl
  own_removals-count own (p ∷ ps) =
      by_case (removes own (l.queued_proposal p)) (own_removals-count own ps)
    where
      by_case :
          (b : Bool)
          → length ps
            ≡ length (own_removals l own ps)
              + length (retain (λ p. not (removes own (l.queued_proposal p))) ps)
          → length (p ∷ ps)
            ≡ length (if b then p ∷ own_removals l own ps else own_removals l own ps)
              + length (
                  if not b
                  then p ∷ retain (λ p. not (removes own (l.queued_proposal p))) ps
                  else retain (λ p. not (removes own (l.queued_proposal p))) ps)
      by_case true h = omega arith
      by_case false h = omega arith

  checked_sub-sum : (a b c : ℕ) → a ≡ b + c → checked_sub a b ≡ returns c
  checked_sub-sum a b c h = ground arith

  -- For a group that the user knows, `pending_proposals` neither fails nor panics: it counts the
  -- pending proposals that do not remove the user itself.
  pub pending_proposals-valid :
      (u : User l) (group_name : String) (group : Group l)
      → lookup group_name u.groups ≡ some group
      → pending_proposals group_name u ≡ returns (u, ok (length (valid_proposals group.mls_group)))
  unfolding pending_proposals invalid_proposals group_or ok_or lift
  pending_proposals-valid u group_name group known =
      >>=-runs (group_or "Unknown group" group_name) _ u u group
        (ap (λ found. ok_or "Unknown group" found u) known)
      ∙ ap (λ n. lift n u)
          (checked_sub-sum _ _ _ (
            own_removals-count (l.own_leaf_index group.mls_group)
              (l.pending_proposals group.mls_group)))
