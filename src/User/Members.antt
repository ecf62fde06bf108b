-- ===== src/User/Members.antt =====
-- The members of a group, as the methods of emulated_client/src/user.rs look them up: the index of
-- the leaf and the identity of the credential of each.
use mls_experimental_analysi.Base.{
  ℕ, String, List, [], ◌∷◌, Option, none, some, if◌then◌else◌, ◌==◌, bytes_eq, Bytes, length,
  contains, Result, ok, err, Outcome, returns, panics, ◌>>=◌,
}
use mls_experimental_analysi.Base.Dict.{Dict, lookup, values}
use mls_experimental_analysi.User.{Contact}

abbrev pub Members : Type 0
Members = List (ℕ × Bytes)

-- `find_member_index`, for the bytes of a name.
unfoldable pub find_member_index : Bytes → Members → Result ℕ
find_member_index name [] = err "Unknown member"
find_member_index name ((index, identity) ∷ members) =
    let rest = find_member_index name members in if identity == name then ok index else rest

-- The identities of the other members, by their contacts where there are some.
unfoldable pub mls_recipients : Bytes → Dict Bytes Contact → Members → List Bytes
mls_recipients own contacts [] = []
mls_recipients own contacts ((index, identity) ∷ members) =
    let rest = mls_recipients own contacts members in
    if identity == own
    then rest
    else (elim (lookup identity contacts) [ some c ↦ c.id | none ↦ identity ]) ∷ rest

-- The number of members, one for a group that the user does not know.
unfoldable pub number_of_members : Option Members → ℕ
number_of_members none = 1
number_of_members (some members) = length members

abbrev pub outsiders : List Bytes → List Contact → List String
outsiders recipients [] = []
outsiders recipients (contact ∷ contacts) =
    let rest = outsiders recipients contacts in
    if contains recipients contact.id then rest else contact.username ∷ rest

-- The names of the contacts that are not in the group.
unfoldable pub not_members_of_group : Bytes → Dict Bytes Contact → Option Members → List String
unfolding mls_recipients
not_members_of_group own contacts none = []
not_members_of_group own contacts (some members) =
    outsiders (mls_recipients own contacts members) (values contacts)

-- The names of the other members: by the contact under the recipient's id, or the id as a text,
-- which panics where it is none.
abbrev names_of : (Bytes → Option String) → Dict Bytes Contact → List Bytes → Outcome (List String)
names_of from_utf8 contacts [] = returns []
names_of from_utf8 contacts (recipient ∷ recipients) = do
  name ← elim (from_utf8 recipient) [ none ↦ panics | some text ↦ returns text ]
  names ← names_of from_utf8 contacts recipients
  returns ((elim (lookup recipient contacts) [ some c ↦ c.username | none ↦ name ]) ∷ names)

unfoldable pub members_of_group :
    (Bytes → Option String) → Bytes → Dict Bytes Contact → Option Members → Outcome (List String)
unfolding mls_recipients
members_of_group from_utf8 own contacts none = returns []
members_of_group from_utf8 own contacts (some members) =
    names_of from_utf8 contacts (mls_recipients own contacts members)
