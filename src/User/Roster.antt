-- ===== src/User/Roster.antt =====
-- The contacts of the user of emulated_client/src/user.rs, and the members that they stand for.
use mls_experimental_analysi.Base.{
  ℕ, suc, Bytes, bytes_eq, String, Bool, true, false, not, ==_iff, ◌==◌, if◌then◌else◌, List, [],
  ◌∷◌, map, retain, get_elem?, contains, All, All-map, Option, none, some, ◌≡◌, refl, arith, Result,
  ok, err, Post,
}
use mls_experimental_analysi.Base.Dict.{Dict, lookup, insert, lookup-insert, values}
use mls_experimental_analysi.DsLib.{Mls}
use mls_experimental_analysi.Agent.{Timing}
use mls_experimental_analysi.User.{Library, User, Contact}
use mls_experimental_analysi.User.Monad.{◌>>=◌, pure, gets, modify}
use mls_experimental_analysi.User.Keeps.{
  Keeps, Keeps-bind, Keeps-pure, Keeps-attempt, Keeps-call_env,
}
use mls_experimental_analysi.User.Members.{Members, mls_recipients, not_members_of_group, outsiders}
use mls_experimental_analysi.User.Delivery.{add_contact, add_contacts, update_clients}

-- Each contact stands under its id, and the user itself is none.
pub record IsRoster (own : Bytes) (contacts : Dict Bytes Contact) : Type 0 where
  pub own_absent : lookup own contacts ≡ none
  pub keyed : (id : Bytes) (c : Contact) → lookup id contacts ≡ some c → c.id ≡ id

pub insert-IsRoster :
    (own : Bytes) (contacts : Dict Bytes Contact) (c : Contact)
    → (c.id == own) ≡ false
    → IsRoster own contacts
    → IsRoster own (insert c.id c contacts)
insert-IsRoster own contacts c other h = record {
  own_absent = ground (arith, lookup-insert c.id own c contacts, h.own_absent);
  keyed = λ id d e. ground (arith, lookup-insert c.id id c contacts, ==_iff c.id id, h.keyed id d);
}

-- The other members, by their credentials.
abbrev pub others : Bytes → Members → List Bytes
others own members = retain (λ identity. not (identity == own)) (map (λ e. e.1) members)

contact-keyed :
    (own : Bytes) (contacts : Dict Bytes Contact) (identity : Bytes)
    → IsRoster own contacts
    → (elim (lookup identity contacts) [ some c ↦ c.id | none ↦ identity ]) ≡ identity
contact-keyed own contacts identity h = by_case (lookup identity contacts) refl
  where
    by_case :
        (o : Option Contact)
        → lookup identity contacts ≡ o
        → (elim o [ some c ↦ c.id | none ↦ identity ]) ≡ identity
    by_case (some c) e = h.keyed identity c e
    by_case none e = refl

-- If each contact stands under its id, the recipients of a message to a group are the identities of
-- its members other than the user, in their order.
pub mls_recipients-others :
    (own : Bytes) (contacts : Dict Bytes Contact) (members : Members)
    → IsRoster own contacts
    → mls_recipients own contacts members ≡ others own members
unfolding mls_recipients
mls_recipients-others own contacts [] h = refl
mls_recipients-others own contacts ((index, identity) ∷ members) h =
    ground
      (arith, mls_recipients-others own contacts members h, contact-keyed own contacts identity h)

-- A contact of the name that is no member.
abbrev pub IsOutsider : List Bytes → List Contact → String → Type 0
IsOutsider members contacts name =
    (i : ℕ) × (c : Contact) × (get_elem? contacts i ≡ some c)
    × (c.username ≡ name)
    × (contains members c.id ≡ false)

later-IsOutsider :
    (members : List Bytes) (c : Contact) (contacts : List Contact) (name : String)
    → IsOutsider members contacts name
    → IsOutsider members (c ∷ contacts) name
later-IsOutsider members c contacts name (i, d, at, named, free) = (suc i, d, at, named, free)

outsiders-IsOutsider :
    (members : List Bytes) (contacts : List Contact)
    → All (IsOutsider members contacts) (outsiders members contacts)
outsiders-IsOutsider members [] = tt
outsiders-IsOutsider members (c ∷ contacts) = by_case (contains members c.id) refl (
    All-map (λ name. later-IsOutsider members c contacts name) _
      (outsiders-IsOutsider members contacts))
  where
    by_case :
        (b : Bool)
        → contains members c.id ≡ b
        → All (IsOutsider members (c ∷ contacts)) (outsiders members contacts)
        → All
            (IsOutsider members (c ∷ contacts))
            (if b then outsiders members contacts else c.username ∷ outsiders members contacts)
    by_case true e later = later
    by_case false e later = ((0, c, refl, refl, e), later)

-- If each contact stands under its id, each candidate for an invitation is the name of a contact
-- whose id is not the identity of another member.
pub candidates-IsOutsider :
    (own : Bytes) (contacts : Dict Bytes Contact) (members : Members)
    → IsRoster own contacts
    → All
        (IsOutsider (others own members) (values contacts))
        (not_members_of_group own contacts (some members))
unfolding not_members_of_group
candidates-IsOutsider own contacts members h =
    rw (mls_recipients-others own contacts members h)
      (outsiders-IsOutsider (others own members) (values contacts))

module _ {m : Mls} {t : Timing} {l : Library m t} where
  abbrev HasRoster : User l → Type 0
  HasRoster u = IsRoster u.identity.credential u.contacts

  add_contact-HasRoster : (c : Contact) → Keeps HasRoster (add_contact {l = l} c)
  unfolding add_contact ◌>>=◌ gets pure modify
  add_contact-HasRoster c = record { at = λ u h. by_case u (c.id == u.identity.credential) refl h }
    where
      by_case :
          (u : User l) (b : Bool)
          → (c.id == u.identity.credential) ≡ b
          → HasRoster u
          → Post {A = User l × Result (Unit {0})}
              (λ q. HasRoster q.0)
              ((if b
                  then pure tt
                  else modify (λ u. record u { contacts = insert c.id c u.contacts }))
                u)
      by_case u true e h = h
      by_case u false e h = insert-IsRoster _ u.contacts c e h

  add_contacts-HasRoster :
      (contacts : List Contact) → Keeps HasRoster (add_contacts {l = l} contacts)
  add_contacts-HasRoster [] = Keeps-pure tt
  add_contacts-HasRoster (c ∷ contacts) =
      Keeps-bind _ _ (add_contact-HasRoster c) (λ _. add_contacts-HasRoster contacts)

  -- If each contact of a user stands under its id and the user itself is none of them, this holds
  -- after `update_clients`, whatever clients the delivery service lists.
  pub update_clients-IsRoster :
      (u : User l)
      → IsRoster u.identity.credential u.contacts
      → Post (λ q. IsRoster q.0.identity.credential q.0.contacts) (update_clients {l = l} u)
  unfolding update_clients
  update_clients-IsRoster u h =
      (Keeps-bind {P = HasRoster} _ _ (Keeps-attempt _ (Keeps-call_env (λ _ _ k. k) l.list_clients))
          by_result).at
        u h
    where
      by_result :
          (result : Result (List Contact))
          → Keeps HasRoster
              (elim result [ ok clients ↦ add_contacts {l = l} clients | err _ ↦ pure tt ])
      by_result (ok clients) = add_contacts-HasRoster clients
      by_result (err e) = Keeps-pure tt
