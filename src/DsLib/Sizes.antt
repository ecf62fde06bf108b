-- ===== src/DsLib/Sizes.antt =====
-- The lengths that the types of ds-lib/src/lib.rs announce before they are written.
use mls_experimental_analysi.Base.{
  ◌+◌, Bytes, Option, none, some, ◌≡◌, refl, ◌↔◌, arith, length, length-append,
}
use mls_experimental_analysi.DsLib.{
  Mls, GroupMessage, GroupInfoAndTree, ClientInfo, WelcomeAcknowledgement,
}
use mls_experimental_analysi.DsLib.Codec.{
  Codec, Tls, ◌then_write◌, tree_codec, names_codec, active_codec, packages_codec,
  acknowledgement_size, write_acknowledgement, client_size, write_client, message_size,
  write_message, info_size, write_info, client_codec, message_codec, info_codec,
}

-- As many bytes are written as announced.
pub record IsSized {A : Type 0} (c : Codec A) : Type 0 where
  pub counted : (a : A) (out : Bytes) → c.write a ≡ some out → length out ≡ c.size a

-- The documented behaviour of `tls_codec` and of the types of OpenMLS.
pub record SizeLaws {m : Mls} (tls : Tls m) : Type 0 where
  pub bytes_u8 : IsSized tls.bytes_u8
  pub bytes_u16 : IsSized tls.bytes_u16
  pub bytes_u32 : IsSized tls.bytes_u32
  pub tree : IsSized (tree_codec tls)
  pub names : IsSized (names_codec tls)
  pub active : IsSized (active_codec tls)
  pub packages : IsSized (packages_codec tls)
  pub message : IsSized tls.message
  pub group_info : IsSized tls.group_info

-- The first part has its length, and the others have theirs.
pub length-then_write :
    {A : Type 0} (c : Codec A)
    → IsSized c
    → (a : A) (y : Option Bytes) (out : Bytes) → (c.write a then_write y) ≡ some out
    → (b : Bytes) × (y ≡ some b) × (length out ≡ c.size a + length b)
length-then_write c law a y out e = by_case (c.write a) refl y e
  where
    by_case :
        (o : Option Bytes)
        → c.write a ≡ o
        → (y : Option Bytes) → (o then_write y) ≡ some out
        → (b : Bytes) × (y ≡ some b) × (length out ≡ c.size a + length b)
    by_case none w y e = cc
    by_case (some x) w none e = cc
    by_case (some x) w (some b) e = (b, refl, ground (arith, law.counted a x w, length-append x b))

module _ {m : Mls} (tls : Tls m) (laws : SizeLaws tls) where
  client-IsSized : IsSized (client_codec tls)
  unfolding client_size write_client
  client-IsSized = record {
    counted = λ c out e.
        let (b, others, n) =
          length-then_write tls.bytes_u16 laws.bytes_u16 (tls.as_bytes c.client_name) _ out e in
        omega (arith, laws.packages.counted c.key_packages b others);
  }

  info-IsSized : IsSized (info_codec tls)
  unfolding info_size write_info
  info-IsSized = record {
    counted = λ info out e.
        let (b, others, n) =
          length-then_write tls.group_info laws.group_info info.group_info _ out e in
        omega (arith, laws.tree.counted info.ratchet_tree b others);
  }

  pub message-IsSized : IsSized (message_codec tls)
  unfolding message_size write_message
  message-IsSized = record {
    counted = λ msg out e.
        let (b, e1, n1) = length-then_write tls.message laws.message msg.msg _ out e in
        let (c, e2, n2) = length-then_write tls.bytes_u32 laws.bytes_u32 msg.sender _ b e1 in
        let (d, e3, n3) = length-then_write (tree_codec tls) laws.tree msg.ratchet_tree _ c e2 in
        let (f, e4, n4) = length-then_write (names_codec tls) laws.names msg.recipients _ d e3 in
        omega (arith, laws.active.counted msg.active_members f e4);
  }

  acknowledgement_size_iff :
      (ack : WelcomeAcknowledgement) (out : Bytes)
      → write_acknowledgement tls ack ≡ some out
      → (length out ≡ acknowledgement_size tls ack)
        ↔ (tls.bytes_u8.size (tls.as_bytes ack.sender) ≡ tls.bytes_u8.size (tls.as_bytes ack.group))
  unfolding write_acknowledgement acknowledgement_size
  acknowledgement_size_iff ack out e =
      let (b, others, n) =
        length-then_write tls.bytes_u8 laws.bytes_u8 (tls.as_bytes ack.sender) _ out e in
      let last = laws.bytes_u8.counted (tls.as_bytes ack.group) b others in
      (λ h. omega arith, λ h. omega arith)

  -- Under the laws on the sizes of the libraries' codecs, the announced length of a group message,
  -- of a group info and of a client is the number of bytes written, whenever writing succeeds; that
  -- of an acknowledgement is so exactly if its sender and its group are announced with the same
  -- length.
  pub announced_sizes :
      (msg : GroupMessage m) (info : GroupInfoAndTree m) (c : ClientInfo m)
      (ack : WelcomeAcknowledgement) (msg_out info_out client_out ack_out : Bytes)
      → write_message tls msg ≡ some msg_out
      → write_info tls info ≡ some info_out
      → write_client tls c ≡ some client_out
      → write_acknowledgement tls ack ≡ some ack_out
      → (length msg_out ≡ message_size tls msg)
        × (length info_out ≡ info_size tls info)
        × (length client_out ≡ client_size tls c)
        × ((length ack_out ≡ acknowledgement_size tls ack) ↔ (
            tls.bytes_u8.size (tls.as_bytes ack.sender)
            ≡ tls.bytes_u8.size (tls.as_bytes ack.group)))
  announced_sizes msg info c ack msg_out info_out client_out ack_out e1 e2 e3 e4 = (
    message-IsSized.counted msg msg_out e1,
    info-IsSized.counted info info_out e2,
    client-IsSized.counted c client_out e3,
    acknowledgement_size_iff ack ack_out e4,
  )
