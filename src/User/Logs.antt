-- ===== src/User/Logs.antt =====
-- The log of a user's actions: `write_timestamp` and `flush_logs` of emulated_client/src/user.rs. A
-- failed write is left out of the log and goes unnoticed; a file that cannot be opened panics.
use mls_experimental_analysi.Base.{
  ℕ, String, Bool, true, false, ◌||◌, List, [], ◌∷◌, ◌++◌, append, map, leb, length, if◌then◌else◌,
  returns, panics, spins, ok,
}
use mls_experimental_analysi.DsLib.{Mls}
use mls_experimental_analysi.Agent.{Timing, CgkaAction}
use mls_experimental_analysi.Agent.Display.{display, spaced, Format}
use mls_experimental_analysi.User.{Library, ActionRecord}
use mls_experimental_analysi.User.Monad.{Method, ◌>>=◌, ◌>>◌, modify, gets, pure}

-- `FILE_BUFFER_SIZE`
abbrev pub file_buffer_size : ℕ
file_buffer_size = 50

abbrev pub is_welcome : {t : Timing} → CgkaAction t → Bool
is_welcome (CgkaAction.welcome user size) = true
is_welcome _ = false

abbrev pub lines : List String → String
lines [] = ""
lines (x ∷ []) = x
lines (x ∷ y ∷ rest) = append x (append "\n" (lines (y ∷ rest)))

-- The text of a record.
unfoldable pub record_line : {t : Timing} → Format t → String → ActionRecord t → String
record_line w username item = spaced (
    item.group_name
    ∷ w.number item.epoch_change.epoch
    ∷ w.number item.num_users
    ∷ username
    ∷ display w item.action
    ∷ w.number item.epoch_change.timestamp
    ∷ w.number item.elapsed_time
    ∷ [])

-- What one call of `flush_logs` writes.
abbrev pub page : {t : Timing} → Format t → String → List (ActionRecord t) → String
page w username items = lines (map (record_line w username) items)

module _ {m : Mls} {t : Timing} {l : Library m t} where
  unfoldable pub flush_logs : Method l (Unit {0})
  flush_logs u = elim (l.append_file (page l.format u.username u.file_buffer) u.env) [
    | returns env ↦ returns (record u { file_buffer = []; env = env }, ok tt)
    | panics ↦ panics
    | spins ↦ spins
  ]

  unfoldable pub write_timestamp : ActionRecord t → Method l (Unit {0})
  unfolding flush_logs
  write_timestamp action_record = do
    modify (λ u. record u { file_buffer = u.file_buffer ++ action_record ∷ [] })
    file_buffer ← gets (λ u. u.file_buffer)
    if leb file_buffer_size (length file_buffer) || is_welcome action_record.action
        then flush_logs
        else pure tt
