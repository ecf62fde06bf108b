-- ===== src/User/Pending.antt =====
-- The commits that a user of emulated_client/src/user.rs has sent: each waits until the user's own
-- message comes back.
use mls_experimental_analysi.Base.{
  ==-ne, ℕ, String, string_eq, Bool-cases, inl, inr, if_then, ◌==◌, ==_iff, if◌then◌else◌, List, [],
  ◌∷◌, All, Option, none, some, ◌≡◌, ◌≢◌, refl, ap, subst, ◌∙◌, returns, Result, ok, err, Post,
  Post-map,
}
use mls_experimental_analysi.Base.Dict.{Dict, lookup, erase, contains_key-some, lookup-erase}
use mls_experimental_analysi.Rng.{Rng}
use mls_experimental_analysi.DsLib.{Mls, GroupMessage}
use mls_experimental_analysi.Agent.{Timing}
use mls_experimental_analysi.User.{Library, User, PendingCommit, ActionRecord}
use mls_experimental_analysi.User.Monad.{Method, ◌>>=◌, pure, fail, gets, unwrap}
use mls_experimental_analysi.User.Keeps.{Keeps, IsFrame, Keeps-bind, Keeps-pure, Post-bind}
use mls_experimental_analysi.User.Frames.{Keeps-confirm_pending}
use mls_experimental_analysi.User.Arrivals.{Keeps-process_welcome, Keeps-process_body}
use mls_experimental_analysi.User.Commits.{confirm_pending, confirm_commit}
use mls_experimental_analysi.User.Inbox.{process_in_message, process_in_messages}
use mls_experimental_analysi.User.Groups.{send_application_msg}

-- The message has a sender, and it is not the user.
abbrev pub IsForeign : {m : Mls} {t : Timing} → Library m t → String → GroupMessage m → Type 0
IsForeign l username msg =
    (sender : String) × (l.from_utf8 msg.sender ≡ some sender) × (sender ≢ username)

module _ {m : Mls} {t : Timing} {l : Library m t} where
  -- The pending commits, and who the user is.
  abbrev pub Awaits : Dict String (PendingCommit l) → String → User l → Type 0
  Awaits pending username u = (u.pending_commits ≡ pending) × (u.username ≡ username)

  Awaits-IsFrame :
      (pending : Dict String (PendingCommit l)) (username : String)
      → IsFrame (Awaits pending username)
  Awaits-IsFrame pending username = record {
    of_env = λ u _ h. h;
    of_groups = λ u _ h. h;
    of_list = λ u _ h. h;
    of_buffer = λ u _ h. h;
    of_contacts = λ u _ h. h;
    of_identity = λ u _ h. h;
    of_orchestrators = λ u _ _ _ _ h. h;
    of_behind = λ u _ _ h. h;
  }

  -- Where it returns, no commit of the group is pending, and those of the others are as before.
  abbrev pub Confirmed : String → User l → User l → Type 0
  Confirmed group_name u u' =
      (other : String)
      → lookup other u'.pending_commits
        ≡ (if group_name == other then none else lookup other u.pending_commits)

  -- The user's own message.
  abbrev pub IsOwn : User l → GroupMessage m → l.Protocol → String → Type 0
  IsOwn u msg message group_name =
      (l.from_utf8 msg.sender ≡ some u.username)
      × (l.into_protocol_message msg.msg ≡ some message)
      × (l.from_utf8 (l.message_group_id message) ≡ some group_name)

  module _ (r : Rng) (fuel : ℕ) where
    process_in_message-foreign :
        (pending : Dict String (PendingCommit l)) (username : String) (msg : GroupMessage m)
        → IsForeign l username msg
        → Keeps (Awaits pending username) (process_in_message {l = l} r fuel msg)
    unfolding process_in_message ◌>>=◌ gets unwrap
    process_in_message-foreign pending username msg (sender, known, other) = record {
      at = λ u h.
          let frame = Awaits-IsFrame pending username in
          rw known (
            rw (==-ne (λ e. other (e ∙ h.1))) (
              (Keeps-process_body frame r fuel (l.extract msg.msg) sender msg (λ welcome _.
                  Keeps-process_welcome frame r fuel (λ _ _ k. k) welcome sender msg)).at
                u h));
    }

    process_in_messages-foreign :
        (pending : Dict String (PendingCommit l)) (username : String) (msgs : List (GroupMessage m))
        → All (IsForeign l username) msgs
        → Keeps (Awaits pending username) (process_in_messages {l = l} r fuel msgs)
    process_in_messages-foreign pending username [] others = Keeps-pure tt
    process_in_messages-foreign pending username (msg ∷ msgs) (other, others) =
        Keeps-bind _ _ (process_in_message-foreign pending username msg other)
          (λ _. process_in_messages-foreign pending username msgs others)

    still_waits :
        (u : User l) (group_name message : String) (item : PendingCommit l)
        → lookup group_name u.pending_commits ≡ some item
        → (lookup group_name u.pending_commits ≡ some item)
          × (send_application_msg message group_name u
              ≡ returns (u, err "There is a pending commit"))
    unfolding send_application_msg ◌>>=◌ gets fail
    still_waits u group_name message item e =
        (e, ap (λ (x : Method l (Unit {0})). x u) (if_then _ _ (contains_key-some group_name _ e)))

    -- While a commit of a group is pending and the messages that a user receives all come from
    -- others, whatever they are, the pending commit stays and the user sends no application message
    -- to the group.
    pub pending_commit-silences :
        (u : User l) (group_name message : String) (item : PendingCommit l)
        (msgs : List (GroupMessage m))
        → lookup group_name u.pending_commits ≡ some item
        → All (IsForeign l u.username) msgs
        → Post
            (λ q.
              (lookup group_name q.0.pending_commits ≡ some item)
              × (send_application_msg message group_name q.0
                  ≡ returns (q.0, err "There is a pending commit")))
            (process_in_messages {l = l} r fuel msgs u)
    pending_commit-silences u group_name message item msgs waits others =
        Post-map {A = User l × Result (Unit {0})} {P = λ q. Awaits u.pending_commits u.username q.0}
          (λ q h. still_waits q.0 group_name message item (ap (lookup group_name) h.0 ∙ waits))
          (process_in_messages {l = l} r fuel msgs u)
          ((process_in_messages-foreign u.pending_commits u.username msgs others).at u (refl, refl))

    nothing-Confirmed :
        (group_name : String) (u : User l)
        → lookup group_name u.pending_commits ≡ none
        → Confirmed group_name u u
    nothing-Confirmed group_name u e other = elim (Bool-cases (group_name == other)) [
      | inl same ↦ rw same (
          subst (λ name. lookup name u.pending_commits ≡ none) ((==_iff group_name other).0 same) e)
      | inr different ↦ rw different refl
    ]

    pub confirm_commit-Confirmed :
        (group_name : String) (u : User l)
        → Post (λ q. Confirmed group_name u q.0) (confirm_commit {l = l} r fuel group_name u)
    unfolding confirm_commit
    confirm_commit-Confirmed group_name u = by_case (lookup group_name u.pending_commits) refl
      where
        by_case :
            (known : Option (PendingCommit l))
            → lookup group_name u.pending_commits ≡ known
            → Post {A = User l × Result (Unit {0})}
                (λ q. Confirmed group_name u q.0)
                (elim known [
                  | none ↦ returns (u, ok tt)
                  | some pending ↦
                      confirm_pending {l = l} r fuel group_name pending
                        (record u { pending_commits = erase group_name u.pending_commits })
                ])
        by_case none e = nothing-Confirmed group_name u e
        by_case (some pending) e =
            Post-map {A = User l × Result (Unit {0})} {Q = λ q. Confirmed group_name u q.0}
              (λ q h other. ap (lookup other) h.0 ∙ lookup-erase group_name other u.pending_commits)
              _
              ((Keeps-confirm_pending
                  (Awaits-IsFrame (erase group_name u.pending_commits) u.username) r fuel group_name
                  pending).at
                (record u { pending_commits = erase group_name u.pending_commits }) (refl, refl))

    -- When a user receives its own message to a group, then where the processing returns, even with
    -- an error, no commit of the group is pending, and those of other groups are as before.
    pub own_message-Confirmed :
        (u : User l) (msg : GroupMessage m) (message : l.Protocol) (group_name : String)
        → IsOwn u msg message group_name
        → Post (λ q. Confirmed group_name u q.0) (process_in_message {l = l} r fuel msg u)
    unfolding process_in_message ◌>>=◌ gets unwrap pure
    own_message-Confirmed u msg message group_name (known, decodes, named) = rw known (
        rw ((==_iff u.username u.username).1 refl) (
          rw decodes (
            rw named (
              Post-bind {P = Confirmed group_name u} (confirm_commit r fuel group_name u)
                (λ _. pure {l = l} {A = Option (ActionRecord t)} none)
                (confirm_commit-Confirmed group_name u) (λ _. Keeps-pure none)))))
