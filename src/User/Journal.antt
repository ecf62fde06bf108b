-- ===== src/User/Journal.antt =====
-- The log of the user of emulated_client/src/user.rs over many actions.
use mls_experimental_analysi.Base.{
  ◌<◌, String, true, false, Bool-cases, inl, inr, if_then, if_else, List, [], ◌∷◌, ◌++◌, map,
  length, leb, ◌||◌, ◌≡◌, refl, sym, ap, ◌∙◌, arith, Outcome, returns, panics, spins, Result, ok,
}
use mathlib.Core.List.{flatten, append_assoc, append-nil}
use mls_experimental_analysi.DsLib.{Mls}
use mls_experimental_analysi.Agent.{Timing}
use mls_experimental_analysi.User.{Library, User, ActionRecord}
use mls_experimental_analysi.User.Blocks.{>>=-runs}
use mls_experimental_analysi.User.Monad.{Method, ◌>>=◌, ◌>>◌, pure, gets, modify}
use mls_experimental_analysi.User.Logs.{
  page, flush_logs, write_timestamp, file_buffer_size, is_welcome,
}

-- What the file holds: each write that succeeds adds its page at the end.
pub record HasLog {m : Mls} {t : Timing} (l : Library m t) (log : l.Env → List String)
    : Type 0 where
  pub appends :
      (text : String) (env : l.Env)
      → (env' : l.Env) × (l.append_file text env ≡ returns env') × (log env' ≡ log env ++ text ∷ [])

module _ {m : Mls} {t : Timing} {l : Library m t} where
  -- The actions one after the other.
  abbrev pub write_all : List (ActionRecord t) → Method l (Unit {0})
  write_all [] = pure tt
  write_all (item ∷ items) = do write_timestamp item; write_all items

  -- The actions are in the file, in order, but for those that the buffer holds, which are fewer
  -- than fill it.
  pub record Written (log : l.Env → List String) (u u' : User l) (items : List (ActionRecord t))
      : Type 0 where
    pub pages : List (List (ActionRecord t))
    pub in_order : flatten pages ++ u'.file_buffer ≡ u.file_buffer ++ items
    pub in_file : log u'.env ≡ log u.env ++ map (page l.format u.username) pages
    pub below : length u'.file_buffer < file_buffer_size

  module _ (log : l.Env → List String) (has : HasLog l log) where
    flush_logs-writes :
        (u : User l) (env' : l.Env)
        → l.append_file (page l.format u.username u.file_buffer) u.env ≡ returns env'
        → flush_logs {l = l} u ≡ returns (record u { file_buffer = []; env = env' }, ok tt)
    unfolding flush_logs
    flush_logs-writes u env' writes = ap finish writes
      where
        finish : Outcome l.Env → Outcome (User l × Result (Unit {0}))
        finish (returns env) = returns (record u { file_buffer = []; env = env }, ok tt)
        finish panics = panics
        finish spins = spins

    write_timestamp-full :
        (item : ActionRecord t) (u : User l)
        → (leb file_buffer_size (length (u.file_buffer ++ item ∷ [])) || is_welcome item.action)
          ≡ true
        → (env' : l.Env) × (write_timestamp {l = l} item u
            ≡ returns (record u { file_buffer = []; env = env' }, ok tt))
          × (log env' ≡ log u.env ++ page l.format u.username (u.file_buffer ++ item ∷ []) ∷ [])
    unfolding write_timestamp ◌>>=◌ gets modify
    write_timestamp-full item u full =
        let (env', writes, adds) =
          has.appends (page l.format u.username (u.file_buffer ++ item ∷ [])) u.env in
        (
          env',
          ap
                (λ (x : Method l (Unit {0})).
                  x (record u { file_buffer = u.file_buffer ++ item ∷ [] }))
                (if_then _ _ full)
              ∙ flush_logs-writes (record u { file_buffer = u.file_buffer ++ item ∷ [] }) env'
                  writes,
          adds,
        )

    write_timestamp-free :
        (item : ActionRecord t) (u : User l)
        → (leb file_buffer_size (length (u.file_buffer ++ item ∷ [])) || is_welcome item.action)
          ≡ false
        → (write_timestamp {l = l} item u
            ≡ returns (record u { file_buffer = u.file_buffer ++ item ∷ [] }, ok tt))
          × (length (u.file_buffer ++ item ∷ []) < file_buffer_size)
    unfolding write_timestamp ◌>>=◌ gets modify pure
    write_timestamp-free item u free = (
      ap (λ (x : Method l (Unit {0})). x (record u { file_buffer = u.file_buffer ++ item ∷ [] }))
          (if_else _ _ free),
      ground arith,
    )

    write_all-cons :
        (item : ActionRecord t) (items : List (ActionRecord t)) (u u' : User l)
        → write_timestamp {l = l} item u ≡ returns (u', ok tt)
        → write_all (item ∷ items) u ≡ write_all items u'
    write_all-cons item items u u' runs =
        >>=-runs (write_timestamp item) (λ _. write_all items) u u' tt runs

    -- Where the file takes each write, the actions that a user logs one after the other are all
    -- written once and in order, but for those at the end that the buffer holds, which are fewer
    -- than fill it, and no call fails.
    pub write_all-Written :
        (items : List (ActionRecord t)) (u : User l)
        → length u.file_buffer < file_buffer_size
        → (u' : User l) × (write_all items u ≡ returns (u', ok tt)) × Written log u u' items
    unfolding pure flatten
    write_all-Written [] u h = (
      u,
      refl,
      record {
        pages = [];
        in_order = sym (append-nil u.file_buffer);
        in_file = sym (append-nil (log u.env));
        below = h;
      },
    )
    write_all-Written (item ∷ items) u h =
        elim (Bool-cases
          (leb file_buffer_size (length (u.file_buffer ++ item ∷ [])) || is_welcome item.action)) [
            | inl full ↦
                let (env', runs, adds) = write_timestamp-full item u full in
                let (u', rest, w) =
                  write_all-Written items (record u { file_buffer = []; env = env' })
                    (omega arith) in
                (
                  u',
                  write_all-cons item items u _ runs ∙ rest,
                  record {
                    pages = (u.file_buffer ++ item ∷ []) ∷ w.pages;
                    in_order =
                        append_assoc (u.file_buffer ++ item ∷ []) _ _
                        ∙ ap (λ r. (u.file_buffer ++ item ∷ []) ++ r) w.in_order
                        ∙ append_assoc u.file_buffer (item ∷ []) items;
                    in_file =
                        w.in_file
                        ∙ ap (λ r. r ++ map (page l.format u.username) w.pages) adds
                        ∙ append_assoc (log u.env)
                            (page l.format u.username (u.file_buffer ++ item ∷ []) ∷ [])
                            (map (page l.format u.username) w.pages);
                    below = w.below;
                  },
                )
            | inr free ↦
                let (runs, below) = write_timestamp-free item u free in
                let (u', rest, w) =
                  write_all-Written items (record u { file_buffer = u.file_buffer ++ item ∷ [] })
                    below in
                (
                  u',
                  write_all-cons item items u _ runs ∙ rest,
                  record {
                    pages = w.pages;
                    in_order = w.in_order ∙ append_assoc u.file_buffer (item ∷ []) items;
                    in_file = w.in_file;
                    below = w.below;
                  },
                )
          ]
