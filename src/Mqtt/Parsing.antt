-- ===== src/Mqtt/Parsing.antt =====
-- `parse_message` of emulated_client/src/pubsub/mod.rs: what a user does with a message of a topic.
use package.text.Mathlib.Text.{starts_with}
use mls_experimental_analysi.Base.{
  ℕ, String, string_eq, Bytes, not, ◌&&◌, contains, Option, none, some, if◌then◌else◌, Result, ok,
  err,
}
use mls_experimental_analysi.Rng.{Rng}
use mls_experimental_analysi.DsLib.{Mls, DsMessage, GroupMessage}
use mls_experimental_analysi.Agent.{Timing}
use mls_experimental_analysi.User.{Library, ActionRecord}
use mls_experimental_analysi.User.Monad.{Method, ◌>>=◌, pure, fail, attempt, unwrap, text, texts}
use mls_experimental_analysi.User.Logs.{write_timestamp}
use mls_experimental_analysi.User.Inbox.{process_in_message, process_ack}

module _ {m : Mls} {t : Timing} {l : Library m t} where
  abbrev pub log_record : Option (ActionRecord t) → Method l (Unit {0})
  log_record none = pure tt
  log_record (some item) = write_timestamp item

  -- An error is passed on, unless the sender's name is no text, which panics.
  abbrev pub report : GroupMessage m → Result (Option (ActionRecord t)) → Method l (Unit {0})
  report msg (ok item) = log_record item
  report msg (err e) = do _ ← text msg.sender; fail e

  module _ (r : Rng) (fuel : ℕ) where
    abbrev pub parse_decoded : DsMessage m → String → String → Method l (Unit {0})
    parse_decoded (DsMessage.welcome_acknowledgement ack) topic user_name = process_ack ack
    parse_decoded (DsMessage.group_message msg) topic user_name = do
      recipients ← texts msg.recipients
      if not (contains recipients user_name) && starts_with topic "cgka/welcome"
          then pure tt
          else (do processed ← attempt (process_in_message r fuel msg); report msg processed)

    -- `decode` is `DSMessage::tls_deserialize`, whose error panics.
    unfoldable pub parse_message :
        (Bytes → Option (DsMessage m)) → Bytes → String → String → Method l (Unit {0})
    parse_message decode bytes topic user_name = do
      message ← unwrap (decode bytes)
      parse_decoded message topic user_name
