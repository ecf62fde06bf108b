-- ===== src/Ds/Copies.antt =====
-- What the loops over the recipients of ds/src/main.rs do to the queues of the clients.
use mls_experimental_analysi.Base.{
  ℕ, suc, ◌≡◌, refl, sym, ap, true, some, List, [], ◌∷◌, ◌++◌, arith, ◌==◌, ==_iff, bytes_eq, Bytes,
  inl, inr, Bool-cases, replicate, if◌then◌else◌, All, ◌∙◌,
}
use mls_experimental_analysi.Base.Dict.{Dict, lookup, insert, lookup-insert}
use mls_experimental_analysi.DsLib.{Mls, GroupMessage, ClientInfo}
use mls_experimental_analysi.Ds.{deliver}

-- How often an identity occurs among the recipients.
abbrev pub copies : Bytes → List Bytes → ℕ
copies id [] = 0
copies id (r ∷ recipients) = if r == id then suc (copies id recipients) else copies id recipients

append_nil : {A : Type 0} (xs : List A) → xs ++ [] ≡ xs
append_nil [] = refl
append_nil (x ∷ xs) = ap (λ ys. x ∷ ys) (append_nil xs)

append_snoc : {A : Type 0} (xs ys : List A) (x : A) → (xs ++ x ∷ []) ++ ys ≡ xs ++ x ∷ ys
append_snoc [] ys x = refl
append_snoc (z ∷ xs) ys x = ap (λ zs. z ∷ zs) (append_snoc xs ys x)

module _ {m : Mls} where
  -- The client with so many copies of the message more in its queue.
  abbrev pub queued : ℕ → GroupMessage m → ClientInfo m → ClientInfo m
  queued n msg c = record c { msgs = c.msgs ++ replicate n msg }

  abbrev pub Registered : Dict Bytes (ClientInfo m) → Bytes → Type 0
  Registered clients id = (c : ClientInfo m) × (lookup id clients ≡ some c)

  insert-Registered :
      (ids : List Bytes) (k : Bytes) (v : ClientInfo m) (clients : Dict Bytes (ClientInfo m))
      → All (Registered clients) ids
      → All (Registered (insert k v clients)) ids
  insert-Registered [] k v clients known = tt
  insert-Registered (id ∷ ids) k v clients ((c, at), known) = (
    elim (Bool-cases (k == id)) [
      | inl same ↦ (v, ground (arith, lookup-insert k id v clients))
      | inr other ↦ (c, ground (arith, lookup-insert k id v clients))
    ],
    insert-Registered ids k v clients known,
  )

  abbrev stored :
      Bytes → GroupMessage m → ClientInfo m → Dict Bytes (ClientInfo m) → Dict Bytes (ClientInfo m)
  stored r msg c clients = insert r (record c { msgs = c.msgs ++ msg ∷ [] }) clients

  deliver-step :
      (r : Bytes) (rs : List Bytes) (msg : GroupMessage m) (clients : Dict Bytes (ClientInfo m))
      (c : ClientInfo m)
      → lookup r clients ≡ some c
      → deliver (r ∷ rs) msg clients ≡ deliver rs msg (stored r msg c clients)
  unfolding deliver
  deliver-step r rs msg clients c at = ground arith

  queued-zero : (msg : GroupMessage m) (c : ClientInfo m) → queued 0 msg c ≡ c
  queued-zero msg c = ap (λ q. record c { msgs = q }) (append_nil c.msgs)

  queued-suc :
      (n : ℕ) (msg : GroupMessage m) (c : ClientInfo m)
      → queued n msg (record c { msgs = c.msgs ++ msg ∷ [] }) ≡ queued (suc n) msg c
  queued-suc n msg c = ap (λ q. record c { msgs = q }) (append_snoc c.msgs (replicate n msg) msg)

  -- Who gets what when one message is stored for a client.
  lookup-stored :
      (r id : Bytes) (msg : GroupMessage m) (clients : Dict Bytes (ClientInfo m))
      (c c' : ClientInfo m)
      → lookup r clients ≡ some c
      → lookup id clients ≡ some c'
      → (n : ℕ)
      → (c'' : ClientInfo m) × (lookup id (stored r msg c clients) ≡ some c'')
        × (queued n msg c'' ≡ queued (if r == id then suc n else n) msg c')
  lookup-stored r id msg clients c c' at at' n = elim (Bool-cases (r == id)) [
    | inl same ↦ (
      record c { msgs = c.msgs ++ msg ∷ [] },
      ground (arith, lookup-insert r id (record c { msgs = c.msgs ++ msg ∷ [] }) clients),
      ground (arith, ==_iff r id, queued-suc n msg c),
    )
    | inr other ↦ (
      c',
      ground (arith, lookup-insert r id (record c { msgs = c.msgs ++ msg ∷ [] }) clients),
      ground arith,
    )
  ]

  -- One loop of `msg_send` whose recipients are all registered: each client gets a copy of the
  -- message for each time it is named, at the end of its queue.
  pub deliver_lem :
      (recipients : List Bytes) (msg : GroupMessage m) (clients : Dict Bytes (ClientInfo m))
      → All (Registered clients) recipients
      → ((deliver recipients msg clients).1 ≡ true)
        × ((id : Bytes) (c : ClientInfo m)
            → lookup id clients ≡ some c
            → lookup id (deliver recipients msg clients).0
              ≡ some (queued (copies id recipients) msg c))
  unfolding deliver
  deliver_lem [] msg clients known = (refl, λ id c at. at ∙ ap some (sym (queued-zero msg c)))
  deliver_lem (r ∷ rs) msg clients ((c, at), known) =
      let clients' = stored r msg c clients in
      let (all, each) =
        deliver_lem rs msg clients'
          (insert-Registered rs r (record c { msgs = c.msgs ++ msg ∷ [] }) clients known) in
      rw (deliver-step r rs msg clients c at) (
        all,
        λ id c' at'.
            let (c'', at'', same) = lookup-stored r id msg clients c c' at at' (copies id rs) in
            each id c'' at'' ∙ ap some same,
      )

  pub All-prefix :
      (xs ys : List Bytes) (clients : Dict Bytes (ClientInfo m))
      → All (Registered clients) (xs ++ ys)
      → All (Registered clients) xs
  All-prefix [] ys clients known = tt
  All-prefix (x ∷ xs) ys clients (first, known) = (first, All-prefix xs ys clients known)

  pub deliver-append :
      (xs ys : List Bytes) (msg : GroupMessage m) (clients : Dict Bytes (ClientInfo m))
      → All (Registered clients) xs
      → deliver (xs ++ ys) msg clients ≡ deliver ys msg (deliver xs msg clients).0
  unfolding deliver
  deliver-append [] ys msg clients known = refl
  deliver-append (r ∷ rs) ys msg clients ((c, at), known) =
      deliver-step r (rs ++ ys) msg clients c at
      ∙ deliver-append rs ys msg (stored r msg c clients)
          (insert-Registered rs r (record c { msgs = c.msgs ++ msg ∷ [] }) clients known)
      ∙ ap (λ q. deliver ys msg q.0) (sym (deliver-step r rs msg clients c at))
