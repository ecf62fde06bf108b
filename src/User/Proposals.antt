-- ===== src/User/Proposals.antt =====
-- The proposals of a user of emulated_client/src/user.rs, and the commits to them.
use mls_experimental_analysi.Base.{
  ℕ, String, string_eq, Bool, false, List, [], ◌∷◌, Option, none, some, length, if◌then◌else◌, ◌==◌,
  nat_eq,
}
use mls_experimental_analysi.Rng.{Rng}
use mls_experimental_analysi.DsLib.{Mls}
use mls_experimental_analysi.Agent.{Timing, CgkaAction, CgkaActions}
use mls_experimental_analysi.User.{Library, Group, StoredWelcome, EpochChange, Proposal, Propose}
use mls_experimental_analysi.User.Monad.{
  Method, ◌>>=◌, ◌>>◌, pure, fail, ask, panic, lift, unwrap, map_err, text, group_or, on_group,
  from_result,
}
use mls_experimental_analysi.User.Members.{find_member_index}
use mls_experimental_analysi.User.Delivery.{consume_key_package}
use mls_experimental_analysi.User.Commits.{post_process_commit}
use mls_experimental_analysi.User.Messages.{member_at, checked_sub, group_now}
use mls_experimental_analysi.User.Groups.{contact_or_error}

-- A proposal to remove the user itself, which it cannot commit.
abbrev pub removes : ℕ → Proposal → Bool
removes own (Proposal.remove index) = index == own
removes own _ = false

-- The users that the actions invite.
abbrev pub invited : {t : Timing} → CgkaActions t → List String
invited CgkaActions.no_actions = []
invited (CgkaActions.more_actions (CgkaAction.invite user size) rest) = user ∷ invited rest
invited (CgkaActions.more_actions _ rest) = invited rest

abbrev with_size : {t : Timing} → CgkaAction t → ℕ → CgkaAction t
with_size (CgkaAction.update _) size = CgkaAction.update size
with_size (CgkaAction.invite user _) size = CgkaAction.invite user size
with_size (CgkaAction.remove user _) size = CgkaAction.remove user size
with_size action size = action

module _ {m : Mls} {t : Timing} (l : Library m t) where
  abbrev pub own_removals : ℕ → List l.Queued → List l.Queued
  own_removals own [] = []
  own_removals own (p ∷ ps) =
      let rest = own_removals own ps in if removes own (l.queued_proposal p) then p ∷ rest else rest

  -- `invalid_proposals`
  unfoldable pub invalid_proposals : l.MlsGroup → List l.Queued
  invalid_proposals group = own_removals (l.own_leaf_index group) (l.pending_proposals group)

module _ {m : Mls} {t : Timing} {l : Library m t} where
  -- The number of the proposals that the user can commit.
  unfoldable pub pending_proposals : String → Method l ℕ
  unfolding invalid_proposals
  pending_proposals group_name = do
    group ← group_or "Unknown group" group_name
    lift (
        checked_sub (length (l.pending_proposals group.mls_group))
          (length (invalid_proposals l group.mls_group)))

  -- Whether one of the proposals adds the user: an error.
  abbrev refuse_pending : String → List l.Queued → Method l (Unit {0})
  refuse_pending user [] = pure tt
  refuse_pending user (p ∷ ps) = elim (l.queued_proposal p) [
    | Proposal.add identity ↦ do
      name ← text identity
      if user == name
          then fail "There is already a pending proposal to add this user."
          else refuse_pending user ps
    | Proposal.remove _ ↦ refuse_pending user ps
    | Proposal.update ↦ refuse_pending user ps
    | Proposal.other ↦ refuse_pending user ps
  ]

  -- What an action proposes: `unreachable!()` for the others.
  unfoldable pub proposal_of : CgkaAction t → Group l → Method l (Propose m)
  proposal_of (CgkaAction.update _) group = pure Propose.update
  proposal_of (CgkaAction.invite user _) group = do
    refuse_pending user (l.pending_proposals group.mls_group)
    contact ← contact_or_error user
    joiner_key_package ← consume_key_package contact
    pure (Propose.add joiner_key_package)
  proposal_of (CgkaAction.remove user _) group = do
    index ← from_result (find_member_index (l.as_bytes user) (l.members group.mls_group))
    pure (Propose.remove index)
  proposal_of _ group = panic

  -- The action of a proposal: `unreachable!()` for the others.
  abbrev action_of : l.MlsGroup → Proposal → Method l (CgkaAction t)
  action_of group (Proposal.add identity) = do
    new_user ← text identity
    pure (CgkaAction.invite new_user 0)
  action_of group (Proposal.remove index) = do
    identity ← unwrap (member_at index (l.members group))
    removed_user ← text identity
    pure (CgkaAction.remove removed_user 0)
  action_of group Proposal.update = pure (CgkaAction.update 0)
  action_of group Proposal.other = panic

  abbrev actions_of : l.MlsGroup → List l.Queued → Method l (CgkaActions t)
  actions_of group [] = pure CgkaActions.no_actions
  actions_of group (p ∷ ps) = do
    action ← action_of group (l.queued_proposal p)
    actions ← actions_of group ps
    pure (CgkaActions.more_actions action actions)

  -- The proposals are taken off the group, one by one.
  unfoldable pub drop_proposals : String → List l.Queued → Method l (Unit {0})
  drop_proposals group_name [] = pure tt
  drop_proposals group_name (p ∷ ps) = do
    group ← group_now group_name
    map_err "Failed to remove proposal: " (on_group group_name group (l.remove_pending_proposal p))
    drop_proposals group_name ps

  -- So many proposals stay, and their actions.
  unfoldable pub choose_proposals : String → ℕ → Method l (CgkaActions t)
  unfolding invalid_proposals drop_proposals
  choose_proposals group_name amount = do
    group ← group_or "Unknown group" group_name
    drop_proposals group_name (invalid_proposals l group.mls_group)
    valid ← group_now group_name
    let pending = l.pending_proposals valid.mls_group
    amount_to_remove ← lift (checked_sub (length pending) amount)
    chosen ← ask (l.choose_multiple amount_to_remove pending)
    drop_proposals group_name chosen
    left ← group_now group_name
    actions_of left.mls_group (l.pending_proposals left.mls_group)

  abbrev stored_for : Option m.Message → List String → Option (StoredWelcome l)
  stored_for none recipients = none
  stored_for (some welcome) recipients =
      some (record { welcome = welcome; recipients = recipients })

  module _ (r : Rng) (fuel : ℕ) where
    unfoldable pub propose : CgkaAction t → String → Method l (Unit {0})
    unfolding proposal_of
    propose action group_name = do
      group ← group_or "Unknown group" group_name
      proposal ← proposal_of action group
      group' ← group_or "Unknown group" group_name
      message ← on_group group_name group' (l.propose proposal)
      elapsed ← ask l.elapsed
      post_process_commit r fuel group_name message none none
          (CgkaAction.propose (with_size action (l.serialized_len message))) elapsed
      pure tt

    unfoldable pub commit_to_proposals : String → ℕ → Method l EpochChange
    unfolding choose_proposals
    commit_to_proposals group_name amount = do
      actions ← choose_proposals group_name amount
      group ← group_now group_name
      (message, welcome, group_info) ←
          on_group {A = m.Message × Option m.Message × Option m.GroupInfo} group_name group
            l.commit_to_pending_proposals
      elapsed ← ask l.elapsed
      post_process_commit r fuel group_name message group_info
          (stored_for welcome (invited actions))
          (CgkaAction.commit actions (l.serialized_len message)) elapsed
