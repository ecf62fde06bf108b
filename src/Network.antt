-- ===== src/Network.antt =====
-- How a client reaches the delivery service: emulated_client/src/network/networking.rs. The crates
-- `url`, `base64` and `reqwest` are parameters. The log lines are left out.
pub mod Backend
pub mod Service
pub mod Handled
pub mod EndToEnd
pub mod Directory
mod Sample
mod Tests
use mls_experimental_analysi.Base.{
  ℕ, String, append, Bytes, Option, none, some, ◌==◌, nat_eq, if◌then◌else◌, Outcome, returns,
  panics, spins, Result, ok, err,
}
use mls_experimental_analysi.DsLib.Codec.{Codec, Read, got, failed, crashed}

-- `url` and `base64`, and how a status is shown.
pub record Web : Type 1 where
  pub Url : Type 0
  pub set_path : String → Url → Url
  pub set_query : String → Url → Url
  pub encode : Bytes → String
  pub status_text : ℕ → String

pub data HttpRequest (w : Web) : Type 0 where
  gets : w.Url → HttpRequest w
  posts : w.Url → Bytes → HttpRequest w

-- A response with its status and its body, if that arrives, or the error for none.
pub data Reply : Type 0 where
  response : ℕ → Result Bytes → Reply
  no_response : String → Reply

-- The blocking client of `reqwest`, without a timeout, and all that it reaches. A call panics if the
-- client cannot be built.
pub record Http (w : Web) : Type 1 where
  pub State : Type 0
  pub send : HttpRequest w → State → Outcome (State × Reply)

-- A call over the network: it changes what the client reaches, and ends with a result or panics.
abbrev pub Call : Type 0 → Type 0 → Type 0
Call S A = S → Outcome (S × Result A)

module _ {S : Type 0} where
  infixl 5 ◌>>=◌
  abbrev pub ◌>>=◌ : {A B : Type 0} → Call S A → (A → Call S B) → Call S B
  ◌>>=◌ x f s = elim (x s) [
    | returns (s', result) ↦ elim result [ ok a ↦ f a s' | err e ↦ returns (s', err e) ]
    | panics ↦ panics
    | spins ↦ spins
  ]

  abbrev pub pure : {A : Type 0} → A → Call S A
  pure a s = returns (s, ok a)

  abbrev pub fail : {A : Type 0} → String → Call S A
  fail e s = returns (s, err e)

  abbrev pub unwrap : {A : Type 0} → Option A → Call S A
  unwrap none s = panics
  unwrap (some a) s = returns (s, ok a)

  abbrev pub lift : {A : Type 0} → Outcome A → Call S A
  lift (returns a) s = returns (s, ok a)
  lift panics s = panics
  lift spins s = spins

  -- `expect` on the result.
  abbrev pub expect : {A : Type 0} → Call S A → Call S A
  expect x s = elim (x s) [
    | returns (s', result) ↦ elim result [ ok a ↦ returns (s', ok a) | err e ↦ panics ]
    | panics ↦ panics
    | spins ↦ spins
  ]

  -- An error gets a prefix.
  abbrev pub map_err : {A : Type 0} → String → Call S A → Call S A
  map_err message x s = elim (x s) [
    | returns (s', result) ↦ elim result [
      | ok a ↦ returns (s', ok a)
      | err e ↦ returns (s', err (append message e))
    ]
    | panics ↦ panics
    | spins ↦ spins
  ]

  -- A response that was read, or the error for one that cannot be; its details are left out.
  abbrev pub decoded : {A : Type 0} → String → Read A → Call S A
  decoded e (got a rest) s = returns (s, ok a)
  decoded e failed s = returns (s, err e)
  decoded e crashed s = panics

module _ (w : Web) where
  -- The body of a response with the status 200.
  unfoldable pub body_of : Reply → Result Bytes
  body_of (response status body) =
      if status == 200
      then (elim body [
        | ok bytes ↦ ok bytes
        | err e ↦ err (append "Error retrieving bytes from response: " e)
      ])
      else err (append "Error status code " (w.status_text status))
  body_of (no_response e) = err (append "ERROR: " e)

module _ {w : Web} (h : Http w) where
  abbrev exchange : HttpRequest w → Call h.State Bytes
  exchange request s = elim (h.send request s) [
    | returns (s', reply) ↦ returns (s', body_of w reply)
    | panics ↦ panics
    | spins ↦ spins
  ]

  unfoldable pub get : w.Url → Call h.State Bytes
  unfolding body_of
  get url = exchange (HttpRequest.gets url)

  -- A message that cannot be serialised panics.
  unfoldable pub post : {A : Type 0} → Codec A → w.Url → A → Call h.State Bytes
  unfolding body_of
  post codec url msg = do
    serialized_msg ← unwrap (codec.write msg)
    exchange (HttpRequest.posts url serialized_msg)
