-- ===== src/Ds/Welcomes.antt =====
-- Whom `send_welcome` of ds/src/main.rs gives a welcome message.
use mls_experimental_analysi.Base.{
  ◌≡◌, false, some, List, [], ◌∷◌, arith, bytes_eq, Bytes, contains, Option-cases, inl, inr, All,
}
use mls_experimental_analysi.Base.Dict.{Dict, lookup}
use mls_experimental_analysi.DsLib.{Mls, ClientInfo, GroupMessage}
use mls_experimental_analysi.Ds.{DsData, Wire, Payload, read_body, offer, offer_all}
use mls_experimental_analysi.Ds.Queues.{send_welcome}

module _ {m : Mls} where
  -- The client holds no key package that one of the secrets is for.
  abbrev pub Uninvited : List Bytes → ClientInfo m → Type 0
  Uninvited hashes c = All (λ hash. contains c.reserved_key_pkg_hash hash ≡ false) hashes

  offer-others :
      (hash : Bytes) (msg : GroupMessage m) (clients clients' : Dict Bytes (ClientInfo m))
      (id : Bytes) (c : ClientInfo m)
      → offer hash msg clients ≡ some clients'
      → lookup id clients ≡ some c
      → contains c.reserved_key_pkg_hash hash ≡ false
      → lookup id clients' ≡ some c
  unfolding offer lookup
  offer-others hash msg [] clients' id c e at h = ground arith
  offer-others hash msg ((name, client) ∷ clients) clients' id c e at h =
      elim (Option-cases (offer hash msg clients)) [
        | inl nobody ↦ ground arith
        | inr (later, found) ↦ ground (arith, offer-others hash msg clients later id c found)
      ]

  offer_all-others :
      (hashes : List Bytes) (msg : GroupMessage m) (clients clients' : Dict Bytes (ClientInfo m))
      (id : Bytes) (c : ClientInfo m)
      → offer_all hashes msg clients ≡ some clients'
      → lookup id clients ≡ some c
      → Uninvited hashes c
      → lookup id clients' ≡ some c
  unfolding offer_all
  offer_all-others [] msg clients clients' id c e at h = ground arith
  offer_all-others (hash ∷ hashes) msg clients clients' id c e at (h, others) =
      elim (Option-cases (offer hash msg clients)) [
        | inl nobody ↦ offer_all-others hashes msg clients clients' id c (ground arith) at others
        | inr (found, given) ↦ ground (arith, offer-others hash msg clients found id c given at h)
      ]

module _ (m : Mls) (w : Wire m) where
  -- A welcome message leaves a client as it is, its queues and its reserved key packages, if no key
  -- package that one of the message's secrets is for is reserved for this client, whatever the
  -- answer is.
  pub send_welcome-others :
      (payload : Payload) (d : DsData m) (msg : GroupMessage m) (hashes : List Bytes) (id : Bytes)
      (c : ClientInfo m) (bytes : Bytes)
      → read_body payload ≡ some bytes
      → w.group_message bytes ≡ some msg
      → m.welcome_secrets msg.msg ≡ some hashes
      → lookup id d.clients.content ≡ some c
      → Uninvited hashes c
      → lookup id (send_welcome m w payload d).0.clients.content ≡ some c
  unfolding send_welcome
  send_welcome-others payload d msg hashes id c bytes read decoded opened at h =
      elim (Option-cases (offer_all hashes msg d.clients.content)) [
        | inl nobody ↦ ground arith
        | inr (clients', given) ↦
            ground (arith, offer_all-others hashes msg d.clients.content clients' id c given at h)
      ]
