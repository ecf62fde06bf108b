-- ===== src/Conversation.antt =====
-- The messages of a conversation: emulated_client/src/conversation.rs.
use mls_experimental_analysi.Base.{
  ℕ, zero, suc, ◌-◌, ◌≤◌, String, ◌≡◌, refl, List, [], ◌∷◌, ◌++◌, arith, if◌then◌else◌, ltb, length,
  drop, length-append,
}

pub record ConversationMessage : Type 0 where
  pub author : String
  pub message : String

pub record Conversation : Type 0 where
  pub messages : List ConversationMessage

unfoldable pub add : Conversation → ConversationMessage → Conversation
add c m = record { messages = c.messages ++ m ∷ [] }

-- The range `start..num_messages` is never out of bounds, so the slice is there.
unfoldable pub get : Conversation → ℕ → List ConversationMessage
get c last_n =
    let num_messages = length c.messages in
    drop (if ltb num_messages last_n then 0 else num_messages - last_n) c.messages

drop_append :
    {A : Type 0} (k : ℕ) (xs ys : List A) → k ≤ length xs → drop k (xs ++ ys) ≡ drop k xs ++ ys
drop_append zero xs ys h = refl
drop_append (suc k) [] ys h = absurd (omega arith)
drop_append (suc k) (x ∷ xs) ys h = drop_append k xs ys (omega arith)

-- The last `n + 1` messages of a conversation after an addition are the last `n` before it,
-- followed by the new message.
pub get-add :
    (c : Conversation) (m : ConversationMessage) (n : ℕ) → get (add c m) (suc n) ≡ get c n ++ m ∷ []
unfolding get add
get-add c m n = ground (
  arith,
  length-append c.messages (m ∷ []),
  drop_append (length c.messages - n) c.messages (m ∷ []),
  drop_append 0 c.messages (m ∷ []),
)
