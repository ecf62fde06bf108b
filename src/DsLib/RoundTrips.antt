-- ===== src/DsLib/RoundTrips.antt =====
-- What is written by the serializers of ds-lib/src/lib.rs can be read.
use mathlib.Core.List.{append_assoc}
use mls_experimental_analysi.Base.{String, Bytes, ◌++◌, Option, none, some, ◌≡◌, refl, ap, ◌∙◌}
use mls_experimental_analysi.DsLib.{
  Mls, GroupMessage, WelcomeAcknowledgement, DsMessage, ClientInfo, new_client_info,
}
use mls_experimental_analysi.DsLib.Codec.{
  got, Codec, Tls, ◌>>=◌, ◌then_write◌, or_crash, tree_codec, names_codec, active_codec,
  packages_codec, write_acknowledgement, read_acknowledgement, write_client, read_client,
  write_message, read_message, write_info, read_info, write_ds_message, read_ds_message,
  acknowledgement_codec, message_codec, info_codec, contents, of_contents,
}
use mls_experimental_analysi.DsLib.Sizes.{IsSized}

-- What was written is read, and what follows it is left.
pub record RoundTrips {A : Type 0} (c : Codec A) : Type 0 where
  pub back : (a : A) (out rest : Bytes) → c.write a ≡ some out → c.read (out ++ rest) ≡ got a rest

-- The documented behaviour of `tls_codec`, of the types of OpenMLS and of Rust's texts.
pub record TlsLaws {m : Mls} (tls : Tls m) : Type 1 where
  pub bytes_u8 : RoundTrips tls.bytes_u8
  pub bytes_u16 : RoundTrips tls.bytes_u16
  pub bytes_u32 : RoundTrips tls.bytes_u32
  pub tree : RoundTrips (tree_codec tls)
  pub names : RoundTrips (names_codec tls)
  pub active : RoundTrips (active_codec tls)
  pub packages : RoundTrips (packages_codec tls)
  -- The prefix of a vector is made of the announced lengths of its elements.
  pub vec_u32 : (A : Type 0) (c : Codec A) → RoundTrips c → IsSized c → RoundTrips (tls.vec_u32 A c)
  pub variants :
      (A B : Type 0) (c : Codec A) (d : Codec B)
      → RoundTrips c
      → RoundTrips d
      → RoundTrips (tls.variants A B c d)
  pub message : RoundTrips tls.message
  pub group_info : RoundTrips tls.group_info
  pub key_package : RoundTrips tls.key_package
  pub from_utf8-as_bytes : (s : String) → tls.from_utf8 (tls.as_bytes s) ≡ some s
  pub from_utf8_lossy-as_bytes : (s : String) → tls.from_utf8_lossy (tls.as_bytes s) ≡ s

then_write-some :
    (x y : Option Bytes) (out : Bytes)
    → (x then_write y) ≡ some out
    → (a b : Bytes) × (x ≡ some a) × (y ≡ some b) × (out ≡ a ++ b)
then_write-some none y out e = cc
then_write-some (some a) none out e = cc
then_write-some (some a) (some b) out e = (a, b, refl, refl, cc)

-- The first part of what was written is read, and the others are left.
pub read-then_write :
    {A : Type 0} (c : Codec A)
    → RoundTrips c
    → (a : A) (y : Option Bytes) (out rest : Bytes) → (c.write a then_write y) ≡ some out
    → (b : Bytes) × (y ≡ some b) × (c.read (out ++ rest) ≡ got a (b ++ rest))
read-then_write c law a y out rest e =
    let (x, b, written, others, whole) = then_write-some (c.write a) y out e in
    (
      b,
      others,
      ap (λ o. c.read (o ++ rest)) whole
          ∙ ap c.read (append_assoc x b rest)
          ∙ law.back a x (b ++ rest) written,
    )

module _ {m : Mls} (tls : Tls m) (laws : TlsLaws tls) where
  acknowledgement-RoundTrips : RoundTrips (acknowledgement_codec tls)
  unfolding write_acknowledgement read_acknowledgement
  acknowledgement-RoundTrips = record {
    back = λ ack out rest e.
        let (b, others, first) =
          read-then_write tls.bytes_u8 laws.bytes_u8 (tls.as_bytes ack.sender) _ out rest e in
        let second = laws.bytes_u8.back (tls.as_bytes ack.group) b rest others in
        rw
          (
            ◌>>=◌,
            first,
            laws.from_utf8-as_bytes ack.sender,
            second,
            laws.from_utf8-as_bytes ack.group,
          )
          refl;
  }

  pub message-RoundTrips : RoundTrips (message_codec tls)
  unfolding write_message read_message
  message-RoundTrips = record {
    back = λ msg out rest e.
        let (b, e1, r1) = read-then_write tls.message laws.message msg.msg _ out rest e in
        let (c, e2, r2) = read-then_write tls.bytes_u32 laws.bytes_u32 msg.sender _ b rest e1 in
        let (d, e3, r3) = read-then_write (tree_codec tls) laws.tree msg.ratchet_tree _ c rest e2 in
        let (f, e4, r4) = read-then_write (names_codec tls) laws.names msg.recipients _ d rest e3 in
        rw (◌>>=◌, r1, r2, r3, r4, laws.active.back msg.active_members f rest e4) refl;
  }

  pub info-RoundTrips : RoundTrips (info_codec tls)
  unfolding write_info read_info
  info-RoundTrips = record {
    back = λ info out rest e.
        let (b, others, first) =
          read-then_write tls.group_info laws.group_info info.group_info _ out rest e in
        rw (◌>>=◌, first, laws.tree.back info.ratchet_tree b rest others) refl;
  }

  of_contents-contents : (msg : DsMessage m) → of_contents tls (contents tls msg) ≡ msg
  of_contents-contents (DsMessage.group_message msg) = refl
  of_contents-contents (DsMessage.welcome_acknowledgement ack) = refl

  -- Under the laws of the codecs of the libraries, a message that can be written, of either kind,
  -- is read back from what was written, whatever bytes follow, and they are left.
  pub read_ds_message-write_ds_message :
      (msg : DsMessage m) (out rest : Bytes)
      → write_ds_message tls msg ≡ some out
      → read_ds_message tls (out ++ rest) ≡ got msg rest
  unfolding write_ds_message read_ds_message
  read_ds_message-write_ds_message msg out rest e =
      let law =
        laws.variants (GroupMessage m) WelcomeAcknowledgement (message_codec tls)
          (acknowledgement_codec tls) message-RoundTrips acknowledgement-RoundTrips in
      rw (◌>>=◌, law.back (contents tls msg) out rest e)
        (ap (λ x. got x rest) (of_contents-contents msg))

  -- Under the laws of the codecs of the libraries, what is written of a client is read back as what
  -- `ClientInfo::new` makes of the client's name and key packages, or its panic: queued messages
  -- and the identity are not sent.
  pub read_client-write_client :
      (c : ClientInfo m) (out rest : Bytes)
      → write_client tls c ≡ some out
      → read_client tls (out ++ rest)
        ≡ or_crash (new_client_info m c.client_name c.key_packages) rest
  unfolding write_client read_client
  read_client-write_client c out rest e =
      let (b, others, first) =
        read-then_write tls.bytes_u16 laws.bytes_u16 (tls.as_bytes c.client_name) _ out rest e in
      rw
        (
          ◌>>=◌,
          first,
          laws.packages.back c.key_packages b rest others,
          laws.from_utf8_lossy-as_bytes c.client_name,
        )
        refl
