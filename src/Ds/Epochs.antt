-- ===== src/Ds/Epochs.antt =====
-- The epochs that the delivery service in ds/src/main.rs remembers for the groups.
use mls_experimental_analysi.Base.{
  ℕ, ◌≤◌, ◌<◌, ◌≡◌, refl, sym, subst, ◌≢◌, true, false, some, List, [], ◌∷◌, arith, ltb, ◌==◌,
  ==_iff, bytes_eq, Bytes, ◌⊎◌, inl, inr, Option-cases, Bool-cases, All,
}
use mls_experimental_analysi.Base.Dict.{Dict, lookup, insert, lookup-insert}
use mls_experimental_analysi.DsLib.{Mls, GroupMessage, ProtocolMessage, ClientInfo}
use mls_experimental_analysi.Ds.{
  DsData, Response, Wire, Payload, EpochUpdate, update_epoch, read_body, Flow, set_groups,
  set_clients, Mutex, ◌>>=◌,
}
use mls_experimental_analysi.Ds.Handlers.{
  register_client, list_clients, get_key_packages, publish_key_packages, consume_key_package,
  get_group_info, group_exists, post_group_info,
}
use mls_experimental_analysi.Ds.Queues.{
  send_welcome, msg_send, msg_recv, pass_epoch, deliver_or_reply, poison,
}
use mls_experimental_analysi.Ds.Rules.{Ends, finish_rule, or_reply_rule, lock_rule, bind_rule}
use mls_experimental_analysi.Ds.Frame.{
  same_groups-register_client, same_groups-consume_key_package, same_groups-get_group_info,
  same_groups-list_clients, same_groups-get_key_packages, same_groups-publish_key_packages,
  same_groups-group_exists, same_groups-post_group_info, same_groups-send_welcome,
  same_groups-msg_recv,
}
use mls_experimental_analysi.Ds.Requests.{Request, handle, run}

-- The epoch of each group is at least what it was.
abbrev pub NotBefore : Dict Bytes ℕ → Dict Bytes ℕ → Type 0
NotBefore old new =
    (g : Bytes) (e : ℕ) → lookup g old ≡ some e → (e' : ℕ) × (lookup g new ≡ some e') × (e ≤ e')

abbrev pub epochs : EpochUpdate → Dict Bytes ℕ
epochs (EpochUpdate.accepted groups) = groups
epochs (EpochUpdate.stale groups) = groups
epochs (EpochUpdate.broken groups) = groups

insert-NotBefore :
    (groups : Dict Bytes ℕ) (g : Bytes) (epoch : ℕ)
    → ((e : ℕ) → lookup g groups ≡ some e → e ≤ epoch)
    → NotBefore groups (insert g epoch groups)
insert-NotBefore groups g epoch above h e at = elim (Bool-cases (g == h)) [
  | inl same ↦
      (epoch, ground (arith, lookup-insert g h epoch groups), above e (ground (arith, ==_iff g h)))
  | inr other ↦ (e, ground (arith, lookup-insert g h epoch groups), omega arith)
]

-- What the test of an epoch comes to: the stored epoch is later, and nothing changes; or it is not,
-- and the message's epoch is stored. The answer 500 is never given.
pub update_epoch_cases :
    (groups : Dict Bytes ℕ) (g : Bytes) (epoch : ℕ)
    → ((e : ℕ) × (lookup g groups ≡ some e)
        × (epoch < e)
        × (update_epoch groups g epoch ≡ EpochUpdate.stale groups))
      ⊎ (((e : ℕ) → lookup g groups ≡ some e → e ≤ epoch)
          × (update_epoch groups g epoch ≡ EpochUpdate.accepted (insert g epoch groups)))
unfolding update_epoch
update_epoch_cases groups g epoch = elim (Option-cases (lookup g groups)) [
  | inl unseen ↦ inr ((λ e at. ground arith), ground arith)
  | inr (e, at) ↦ elim (Bool-cases (ltb epoch e)) [
    | inl late ↦ inl (e, at, ground arith, ground arith)
    | inr fine ↦ inr ((λ e' at'. ground arith), ground arith)
  ]
]

-- Every handshake message leaves each group's epoch at least as high as it was.
update_epoch-NotBefore :
    (groups : Dict Bytes ℕ) (g : Bytes) (epoch : ℕ)
    → NotBefore groups (epochs (update_epoch groups g epoch))
update_epoch-NotBefore groups g epoch = elim (update_epoch_cases groups g epoch) [
  | inl (e, at, late, same) ↦ rw same (λ h k found. (k, found, omega arith))
  | inr (above, stored) ↦ rw stored (insert-NotBefore groups g epoch above)
]

NotBefore-refl : (groups : Dict Bytes ℕ) → NotBefore groups groups
NotBefore-refl groups g e at = (e, at, omega arith)

NotBefore-trans : (a b c : Dict Bytes ℕ) → NotBefore a b → NotBefore b c → NotBefore a c
NotBefore-trans a b c ab bc g e at =
    let (e', at', le) = ab g e at in let (e'', at'', le') = bc g e' at' in (e'', at'', omega arith)

-- The three ends of the test in `msg_send`: no handshake message, a message of an earlier epoch
-- than the stored one, and a message whose epoch is stored.
pub pass_epoch_cases :
    (m : Mls) (d : DsData m) (p : ProtocolMessage)
    → ((p.is_handshake_message ≡ false) × (pass_epoch d d.groups.content p ≡ Flow.next d))
      ⊎ ((p.is_handshake_message ≡ true)
          × (e : ℕ) × (lookup p.group_id d.groups.content ≡ some e)
          × (p.epoch < e)
          × (pass_epoch d d.groups.content p
              ≡ Flow.reply (set_groups d d.groups.content) Response.conflict))
      ⊎ ((p.is_handshake_message ≡ true)
          × ((e : ℕ) → lookup p.group_id d.groups.content ≡ some e → e ≤ p.epoch)
          × (pass_epoch d d.groups.content p
              ≡ Flow.next (set_groups d (insert p.group_id p.epoch d.groups.content))))
pass_epoch_cases m d p = elim (Bool-cases p.is_handshake_message) [
  | inr plain ↦ inl (plain, ground arith)
  | inl handshake ↦ elim (update_epoch_cases d.groups.content p.group_id p.epoch) [
    | inl (e, at, late, same) ↦ inr (inl (handshake, e, at, late, ground arith))
    | inr (above, stored) ↦ inr (inr (handshake, above, ground arith))
  ]
]

module _ (m : Mls) (w : Wire m) where
  deliver_or_reply-groups :
      (d d' : DsData m) (recipients : List Bytes) (msg : GroupMessage m)
      (clients : Dict Bytes (ClientInfo m)) (response : Response)
      → deliver_or_reply d recipients msg clients ≡ Flow.reply d' response
      → d'.groups ≡ d.groups
  deliver_or_reply-groups d d' recipients msg clients response e = ground arith

  -- What is left of `msg_send` after the test of the epoch changes no epoch.
  deliver_NotBefore :
      (d d' : DsData m) (msg : GroupMessage m) (clients : Dict Bytes (ClientInfo m))
      → NotBefore d.groups.content d'.groups.content
      → Ends
          (λ q _. NotBefore d.groups.content q.groups.content)
          (deliver_or_reply d' msg.recipients msg clients >>= λ clients'.
            deliver_or_reply d' (msg.sender ∷ []) msg clients' >>= λ clients''.
            Flow.next (set_clients d' clients'', Response.done))
  deliver_NotBefore d d' msg clients h =
      let keep = λ (q : DsData m) (e : q.groups ≡ d'.groups).
        subst (λ (t : Mutex (Dict Bytes ℕ)). NotBefore d.groups.content t.content) (sym e) h in
      bind_rule _ (deliver_or_reply d' msg.recipients msg clients) _
        (λ q r e. keep q (deliver_or_reply-groups d' q msg.recipients msg clients r e))
        (λ clients' _.
          bind_rule _ (deliver_or_reply d' (msg.sender ∷ []) msg clients') _
            (λ q r e. keep q (deliver_or_reply-groups d' q (msg.sender ∷ []) msg clients' r e))
            (λ clients'' _. h))

  -- A message leaves each epoch at least as high as it was.
  msg_send-NotBefore :
      (payload : Payload) (d : DsData m)
      → NotBefore d.groups.content (msg_send m w payload d).0.groups.content
  unfolding msg_send
  msg_send-NotBefore payload d =
      let same = NotBefore-refl d.groups.content in
      finish_rule (λ d' _. NotBefore d.groups.content d'.groups.content) _
        (or_reply_rule _ d _ (read_body payload) _ (λ _. same)
          (λ bytes _.
            or_reply_rule _ d _ (w.group_message bytes) _ (λ _. same)
              (λ msg _.
                lock_rule _ d _ d.clients (λ _. same)
                  (λ _.
                    lock_rule _ d _ d.groups (λ _. same)
                      (λ _.
                        or_reply_rule _ (poison d) _ (m.protocol_message msg.msg) _ (λ _. same)
                          (λ p _. elim (pass_epoch_cases m d p) [
                            | inl (_, e) ↦ rw e (deliver_NotBefore d d msg d.clients.content same)
                            | inr (inl (_, _, _, _, e)) ↦ rw e same
                            | inr (inr (_, above, e)) ↦ rw e (
                                deliver_NotBefore d
                                  (set_groups d (insert p.group_id p.epoch d.groups.content)) msg
                                  d.clients.content
                                  (insert-NotBefore d.groups.content p.group_id p.epoch above))
                          ]))))))

  -- The epochs are not touched.
  kept_NotBefore :
      (d d' : DsData m) → d'.groups ≡ d.groups → NotBefore d.groups.content d'.groups.content
  kept_NotBefore d d' e =
      subst (λ (t : Mutex (Dict Bytes ℕ)). NotBefore d.groups.content t.content) (sym e)
        (NotBefore-refl d.groups.content)

  -- No request but `reset` lowers or forgets the epoch of a group.
  handle-NotBefore :
      (request : Request) (d : DsData m)
      → request ≢ Request.resets
      → NotBefore d.groups.content (handle m w request d).0.groups.content
  unfolding handle
  handle-NotBefore (Request.register_clients payload) d ne =
      kept_NotBefore d (register_client m w payload d).0 (same_groups-register_client m w payload d)
  handle-NotBefore Request.lists_clients d ne =
      kept_NotBefore d (list_clients m w d).0 (same_groups-list_clients m w d)
  handle-NotBefore Request.resets d ne = absurd (ne refl)
  handle-NotBefore (Request.gets_key_packages path) d ne =
      kept_NotBefore d (get_key_packages m w path d).0 (same_groups-get_key_packages m w path d)
  handle-NotBefore (Request.publishes_key_packages path payload) d ne =
      kept_NotBefore d (publish_key_packages m w path payload d).0
        (same_groups-publish_key_packages m w path payload d)
  handle-NotBefore (Request.consumes_key_package path) d ne =
      kept_NotBefore d (consume_key_package m w path d).0
        (same_groups-consume_key_package m w path d)
  handle-NotBefore (Request.gets_group_info path) d ne =
      kept_NotBefore d (get_group_info m w path d).0 (same_groups-get_group_info m w path d)
  handle-NotBefore (Request.peeks_group path) d ne =
      kept_NotBefore d (group_exists m w path d).0 (same_groups-group_exists m w path d)
  handle-NotBefore (Request.posts_group_info path payload) d ne =
      kept_NotBefore d (post_group_info m w path payload d).0
        (same_groups-post_group_info m w path payload d)
  handle-NotBefore (Request.sends_welcome payload) d ne =
      kept_NotBefore d (send_welcome m w payload d).0 (same_groups-send_welcome m w payload d)
  handle-NotBefore (Request.sends_message payload) d ne = msg_send-NotBefore payload d
  handle-NotBefore (Request.receives path) d ne =
      kept_NotBefore d (msg_recv m w path d).0 (same_groups-msg_recv m w path d)

  -- Over any list of requests without a `reset`, whatever their order and their answers, the epoch
  -- that the service holds for a group is never lowered and never forgotten.
  pub run-NotBefore :
      (requests : List Request) (d : DsData m)
      → All (λ request. request ≢ Request.resets) requests
      → NotBefore d.groups.content (run m w requests d).groups.content
  unfolding run
  run-NotBefore [] d ne = NotBefore-refl d.groups.content
  run-NotBefore (request ∷ requests) d (first, others) =
      let d' = (handle m w request d).0 in
      NotBefore-trans d.groups.content d'.groups.content (run m w requests d').groups.content
        (handle-NotBefore request d first) (run-NotBefore requests d' others)
