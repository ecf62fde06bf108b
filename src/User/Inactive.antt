-- ===== src/User/Inactive.antt =====
-- Users of emulated_client/src/user.rs that have fallen behind in a group.
use mls_experimental_analysi.Base.{
  ℕ, suc, ◌<◌, String, string_eq, Bool, true, false, ◌==◌, if◌then◌else◌, if_else, List, [], ◌∷◌,
  All, none, some, ◌≡◌, ◌≢◌, refl, ap, ◌∙◌, lt→ltb, returns, Result, ok, Post, Post-map,
}
use mls_experimental_analysi.Base.Dict.{Dict, lookup, insert, lookup-insert, lookup-insert_self}
use mls_experimental_analysi.Rng.{Rng}
use mls_experimental_analysi.Config.{AuthorizationPolicy}
use mls_experimental_analysi.DsLib.{Mls, GroupMessage}
use mls_experimental_analysi.Agent.{Timing}
use mls_experimental_analysi.User.{Library, User, Group, ContentType, Body, EpochChange}
use mls_experimental_analysi.User.Monad.{Method, ◌>>=◌, pure, gets, unwrap, modify, ask}
use mls_experimental_analysi.User.Keeps.{Keeps, IsFrame, Keeps-bind, Keeps-pure, Keeps-if}
use mls_experimental_analysi.User.Arrivals.{Keeps-process_body, Keeps-process_in_message}
use mls_experimental_analysi.User.Receive.{
  notice, fall_behind, process_in_group, process_protocol_message,
}
use mls_experimental_analysi.User.Inbox.{is_active, is_authorised, process_in_messages}

is_active-behind :
    (group_name name : String) (epoch : ℕ) (d : Dict String (Bool × ℕ))
    → is_active group_name d ≡ false
    → is_active group_name (insert name (false, epoch) d) ≡ false
is_active-behind group_name name epoch d h =
    ap (λ o. elim o [ some state ↦ state.0 | none ↦ false ])
      (lookup-insert name group_name (false, epoch) d)
    ∙ by_case (name == group_name)
  where
    by_case :
        (b : Bool)
        → elim (if b then some (false, epoch) else lookup group_name d) [
          | some state ↦ state.0
          | none ↦ false
        ]
          ≡ false
    by_case true = refl
    by_case false = h

-- The message is no welcome.
abbrev pub IsNoWelcome : {m : Mls} {t : Timing} → Library m t → GroupMessage m → Type 0
IsNoWelcome l msg = (welcome : l.Welcome) → l.extract msg.msg ≢ Body.welcome welcome

module _ {m : Mls} {t : Timing} {l : Library m t} where
  -- The user may not change the group.
  abbrev pub IsInactive : String → User l → Type 0
  IsInactive group_name u = is_active group_name u.active ≡ false

  IsInactive-IsFrame : (group_name : String) → IsFrame (IsInactive group_name)
  IsInactive-IsFrame group_name = record {
    of_env = λ u _ h. h;
    of_groups = λ u _ h. h;
    of_list = λ u _ h. h;
    of_buffer = λ u _ h. h;
    of_contacts = λ u _ h. h;
    of_identity = λ u _ h. h;
    of_orchestrators = λ u _ _ _ _ h. h;
    of_behind = λ u name epoch h. is_active-behind group_name name epoch u.active h;
  }

  is_authorised-inactive :
      (group_name : String) (policy : AuthorizationPolicy) (u : User l)
      → IsInactive group_name u
      → is_authorised group_name policy u ≡ returns (u, ok false)
  unfolding is_authorised ◌>>=◌ gets pure
  is_authorised-inactive group_name policy u h = ap (λ (x : Method l Bool). x u) (if_else _ _ h)

  -- What is left of a user that has fallen behind.
  abbrev pub Behind : String → User l → User l → Type 0
  Behind group_name u u' = IsInactive group_name u' × (u'.groups ≡ u.groups)

  module _ (r : Rng) (fuel : ℕ) where
    process_in_messages-IsInactive :
        (group_name : String) (msgs : List (GroupMessage m))
        → All (IsNoWelcome l) msgs
        → Keeps (IsInactive group_name) (process_in_messages {l = l} r fuel msgs)
    process_in_messages-IsInactive group_name [] none_of = Keeps-pure tt
    process_in_messages-IsInactive group_name (msg ∷ msgs) (no_welcome, none_of) =
        let frame = IsInactive-IsFrame group_name in
        Keeps-bind _ _
          (Keeps-process_in_message frame r fuel (λ u d h. h) msg
            (λ sender.
              Keeps-process_body frame r fuel (l.extract msg.msg) sender msg
                (λ welcome e. absurd (no_welcome welcome e))))
          (λ _. process_in_messages-IsInactive group_name msgs none_of)

    -- A user that is inactive in a group stays unauthorised there, under each policy, whatever
    -- messages it receives, its own among them, as long as none of them is a welcome.
    pub inactive_users-stay :
        (u : User l) (group_name : String) (policy : AuthorizationPolicy)
        (msgs : List (GroupMessage m))
        → IsInactive group_name u
        → All (IsNoWelcome l) msgs
        → Post
            (λ q. is_authorised group_name policy q.0 ≡ returns (q.0, ok false))
            (process_in_messages {l = l} r fuel msgs u)
    inactive_users-stay u group_name policy msgs h none_of =
        Post-map {A = User l × Result (Unit {0})} {P = λ q. IsInactive group_name q.0}
          (λ q k. is_authorised-inactive group_name policy q.0 k)
          (process_in_messages {l = l} r fuel msgs u)
          ((process_in_messages-IsInactive group_name msgs none_of).at u h)

    notice-Behind :
        (u u' : User l) (was : Bool × ℕ) (message : l.Protocol) (sender group_name : String)
        (group : Group l) (epoch : ℕ) (change : EpochChange)
        → Behind group_name u u'
        → Post
            (λ q. Behind group_name u q.0)
            (notice {l = l} r fuel (some was) message sender group_name group epoch change u')
    unfolding notice pure
    notice-Behind u u' was message sender group_name group epoch change h =
        (Keeps-if {P = Behind group_name u} _ _ _ (Keeps-pure _) (Keeps-pure _)).at u' h

    -- A commit of a later epoch than the group's makes a user that has a state for the group
    -- inactive in it and leaves its groups as they were.
    pub later_commits-suspend :
        (u : User l) (message : l.Protocol) (sender group_name : String) (group : Group l)
        (was : Bool × ℕ)
        → l.from_utf8 (l.message_group_id message) ≡ some group_name
        → lookup group_name u.groups ≡ some group
        → lookup group_name u.active ≡ some was
        → l.content_type message ≡ ContentType.commit
        → l.epoch group.mls_group < l.message_epoch message
        → Post
            (λ q. Behind group_name u q.0)
            (process_protocol_message {l = l} r fuel message sender u)
    unfolding process_protocol_message process_in_group fall_behind ◌>>=◌ unwrap gets ask modify
    later_commits-suspend u message sender group_name group was named known before commit later =
        rw named (
          rw known (
            rw (lt→ltb _ _ later) (
              rw commit (
                rw before (
                  notice-Behind u _ was message sender group_name group (l.epoch group.mls_group)
                    (record { timestamp = (l.timestamp u.env).1; epoch = l.message_epoch message })
                    (
                      ap (λ o. elim o [ some state ↦ state.0 | none ↦ false ])
                          (lookup-insert_self group_name (false, suc (l.message_epoch message))
                            u.active),
                      refl,
                    ))))))
