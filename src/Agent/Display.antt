-- ===== src/Agent/Display.antt =====
-- `impl Display for CGKAAction`: client_agent/mod.rs. How numbers and measured times are written is
-- a parameter: the segments of a `CryptoTime`, a `ProcessCryptoTime` and a `MergeTime`.
use mls_experimental_analysi.Base.{
  ℕ, suc, String, append, List, [], ◌∷◌, if◌then◌else◌, ◌==◌, string_eq,
}
use mls_experimental_analysi.Agent.{Timing, CgkaAction, CgkaActions}

pub record Format (t : Timing) : Type 0 where
  pub number : ℕ → String
  pub crypto_time : t.CryptoTime → String
  pub process_crypto_time : t.ProcessCryptoTime → String
  pub merge_time : t.MergeTime → String

-- The texts with a blank between each two.
abbrev pub spaced : List String → String
spaced [] = ""
spaced (x ∷ []) = x
spaced (x ∷ y ∷ rest) = append x (append " " (spaced (y ∷ rest)))

module _ {t : Timing} (w : Format t) where
  abbrev number_of_actions : CgkaActions t → ℕ
  number_of_actions CgkaActions.no_actions = 0
  number_of_actions (CgkaActions.more_actions action actions) = suc (number_of_actions actions)

  unfoldable pub display : CgkaAction t → String
  display (CgkaAction.propose action) = append "Propose " (display action)
  display (CgkaAction.commit proposals size) =
      spaced ("Commit" ∷ w.number (number_of_actions proposals) ∷ w.number size ∷ [])
  display (CgkaAction.join c_size gi_size) =
      spaced ("Join" ∷ w.number c_size ∷ w.number gi_size ∷ [])
  display (CgkaAction.update size) = spaced ("Update" ∷ w.number size ∷ [])
  display (CgkaAction.invite user size) = spaced ("Invite" ∷ user ∷ w.number size ∷ [])
  display (CgkaAction.remove user size) = spaced ("Remove" ∷ user ∷ w.number size ∷ [])
  display (CgkaAction.process user) =
      if user == "" then "Process" else spaced ("Process" ∷ user ∷ [])
  display (CgkaAction.store_prop user) =
      if user == "" then "StoreProp" else spaced ("StoreProp" ∷ user ∷ [])
  display (CgkaAction.welcome user size) =
      if user == "" then "Welcome" else spaced ("Welcome" ∷ user ∷ w.number size ∷ [])
  display (CgkaAction.deep_commit size crypto merge) =
      spaced (
        "DeepCommit" ∷ w.number size ∷ "||" ∷ w.crypto_time crypto ∷ "||" ∷ w.merge_time merge ∷ [])
  display (CgkaAction.deep_process user crypto merge) =
      spaced (
        "DeepProcess" ∷ user ∷ "||" ∷ w.process_crypto_time crypto ∷ "||" ∷ w.merge_time merge ∷ [])
  display CgkaAction.create = "Create"
  display (CgkaAction.commit_attempt action) = append "CommitAttempt " (display action)
