-- ===== src/DsLib/Sample.antt =====
-- An instance of the encodings, from the codecs of DsLib/SampleCodecs.
use mls_experimental_analysi.Base.{Bytes, true, List, [], ◌∷◌, none, some}
use mls_experimental_analysi.DsLib.{Mls}
use mls_experimental_analysi.DsLib.Codec.{Codec, Tls}
use mls_experimental_analysi.DsLib.RoundTrips.{RoundTrips, TlsLaws}
use mls_experimental_analysi.DsLib.Sizes.{SizeLaws}
use mls_experimental_analysi.DsLib.SampleText.{
  codes, of_codes, of_codes_lossy, of_codes-codes, of_codes_lossy-codes,
}
use mls_experimental_analysi.DsLib.SampleCodecs.{
  number, number-RoundTrips, number-IsSized, counted, counted-RoundTrips, counted-IsSized, both,
  both-RoundTrips, both-IsSized, either, either-RoundTrips, optional, optional-RoundTrips,
  optional-IsSized,
}

-- The messages and the types of OpenMLS are byte strings. A message is a handshake message of the
-- epoch and the group that it names.
abbrev pub byte_mls : Mls
byte_mls = record {
  KeyPackage = Bytes;
  Message = Bytes;
  RatchetTree = Bytes;
  GroupInfo = Bytes;
  identity = λ id. id;
  welcome_secrets = λ msg. none;
  protocol_message = λ msg. elim msg [
    | [] ↦ none
    | epoch ∷ group_id ↦
        some (record { is_handshake_message = true; epoch = epoch; group_id = group_id })
  ];
}

abbrev pub tls_of :
    (m : Mls)
    → Codec m.Message
    → Codec m.RatchetTree
    → Codec m.GroupInfo
    → Codec m.KeyPackage
    → Tls m
tls_of m msg tree info kp = record {
  bytes_u8 = counted number;
  bytes_u16 = counted number;
  bytes_u32 = counted number;
  option = optional;
  vec = λ A c. counted c;
  vec_u32 = λ A c. counted c;
  pair = λ A B c d. both c d;
  variants = λ A B c d. either c d;
  message = msg;
  ratchet_tree = tree;
  group_info = info;
  key_package = kp;
  as_bytes = codes;
  from_utf8 = of_codes;
  from_utf8_lossy = of_codes_lossy;
}

pub bytes-RoundTrips : RoundTrips (counted number)
bytes-RoundTrips = counted-RoundTrips number number-RoundTrips

pub tls_of-laws :
    (m : Mls) (msg : Codec m.Message) (tree : Codec m.RatchetTree) (info : Codec m.GroupInfo)
    (kp : Codec m.KeyPackage)
    → RoundTrips msg
    → RoundTrips tree
    → RoundTrips info
    → RoundTrips kp
    → TlsLaws (tls_of m msg tree info kp)
tls_of-laws m msg tree info kp msg_law tree_law info_law kp_law = record {
  bytes_u8 = bytes-RoundTrips;
  bytes_u16 = bytes-RoundTrips;
  bytes_u32 = bytes-RoundTrips;
  tree = optional-RoundTrips m.RatchetTree tree tree_law;
  names = counted-RoundTrips (counted number) bytes-RoundTrips;
  active =
      optional-RoundTrips (List Bytes) (counted (counted number))
        (counted-RoundTrips (counted number) bytes-RoundTrips);
  packages =
      counted-RoundTrips (both (counted number) kp)
        (both-RoundTrips (counted number) kp bytes-RoundTrips kp_law);
  vec_u32 = λ A c law sized. counted-RoundTrips c law;
  variants = λ A B c d. either-RoundTrips c d;
  message = msg_law;
  group_info = info_law;
  key_package = kp_law;
  from_utf8-as_bytes = of_codes-codes;
  from_utf8_lossy-as_bytes = of_codes_lossy-codes;
}

abbrev pub tls : Tls byte_mls
tls = tls_of byte_mls (counted number) (counted number) (counted number) (counted number)

pub tls_laws : TlsLaws tls
tls_laws =
    tls_of-laws byte_mls (counted number) (counted number) (counted number) (counted number)
      bytes-RoundTrips bytes-RoundTrips bytes-RoundTrips bytes-RoundTrips

pub tls_sizes : SizeLaws tls
tls_sizes =
    let sized = counted-IsSized number number-IsSized in
    record {
      bytes_u8 = sized;
      bytes_u16 = sized;
      bytes_u32 = sized;
      tree = optional-IsSized Bytes (counted number) sized;
      names = counted-IsSized (counted number) sized;
      active =
          optional-IsSized (List Bytes) (counted (counted number))
            (counted-IsSized (counted number) sized);
      packages =
          counted-IsSized (both (counted number) (counted number))
            (both-IsSized (counted number) (counted number) sized sized);
      message = sized;
      group_info = sized;
    }
