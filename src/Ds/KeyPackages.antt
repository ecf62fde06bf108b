-- ===== src/Ds/KeyPackages.antt =====
-- Registration and key packages at the delivery service: `register_client` and `consume_key_package`
-- of ds/src/main.rs, with `ClientInfo::new` and `consume_kp` of ds-lib/src/lib.rs.
use mls_experimental_analysi.Base.{
  String, ◌≡◌, some, false, List, [], ◌∷◌, arith, bytes_eq, Bytes, ==_iff, ◌↔◌, Option-cases, inl,
  inr,
}
use mls_experimental_analysi.Base.Dict.{lookup, lookup-insert}
use mls_experimental_analysi.DsLib.{Mls, ClientInfo, HashedPackage, consume_kp, new_client_info}
use mls_experimental_analysi.Ds.{DsData, Wire, Response, Payload, read_body}
use mls_experimental_analysi.Ds.Handlers.{consume_key_package, register_client}

consume_kp-repeats :
    (m : Mls) (c : ClientInfo m) → (consume_kp m (consume_kp m c).0).1 ≡ (consume_kp m c).1
unfolding consume_kp
consume_kp-repeats m c = ground arith

module _ (m : Mls) (w : Wire m) where
  -- A key package is not used up: whoever asks for a client's key package again, right after, gets
  -- the answer that the first request got.
  pub consume_key_package-repeats :
      (path : String) (d : DsData m)
      → (consume_key_package m w path (consume_key_package m w path d).0).1
        ≡ (consume_key_package m w path d).1
  unfolding consume_key_package
  consume_key_package-repeats path d = elim (Option-cases (w.decode_id path)) [
    | inl bad ↦ ground arith
    | inr (id, decoded) ↦ elim (Option-cases (lookup id d.clients.content)) [
      | inl unknown ↦ ground arith
      | inr (c, at) ↦ ground (
        arith,
        lookup-insert id id (consume_kp m c).0 d.clients.content,
        consume_kp-repeats m c,
        ==_iff id id,
      )
    ]
  ]

  -- The client as `register_client` stores it.
  abbrev pub newcomer : String → Bytes → List (HashedPackage m) → ClientInfo m
  newcomer name id key_packages = record {
    client_name = name;
    key_packages = key_packages;
    reserved_key_pkg_hash = [];
    id = id;
    msgs = [];
    welcome_queue = [];
  }

  -- A registration that can be read while the lock is sound is stored with empty queues under the
  -- identity of its first key package, whatever was there; it is answered with 409 exactly when
  -- that identity was registered before.
  pub register_client-replaces :
      (payload : Payload) (d : DsData m) (bytes : Bytes) (name : String) (first : HashedPackage m)
      (rest : List (HashedPackage m))
      → read_body payload ≡ some bytes
      → w.client_info bytes ≡ some (name, first ∷ rest)
      → d.clients.poisoned ≡ false
      → let id = m.identity first.1 in
        (lookup id (register_client m w payload d).0.clients.content
          ≡ some (newcomer name id (first ∷ rest)))
        × (((register_client m w payload d).1 ≡ Response.conflict)
            ↔ ((c : ClientInfo m) × (lookup id d.clients.content ≡ some c)))
  unfolding register_client new_client_info
  register_client-replaces payload d bytes name first rest read decoded sound =
      let id = m.identity first.1 in
      (
        ground (
          arith,
          lookup-insert id id (newcomer name id (first ∷ rest)) d.clients.content,
          ==_iff id id,
        ),
        elim (Option-cases (lookup id d.clients.content)) [
          | inl unknown ↦ (ground arith, ground arith)
          | inr (c, at) ↦ ((λ h. (c, at)), ground arith)
        ],
      )
