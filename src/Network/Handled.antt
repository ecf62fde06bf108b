-- ===== src/Network/Handled.antt =====
-- The calls of network/networking.rs when they reach the service.
use mathlib.Core.List.{append-nil}
use mls_experimental_analysi.Base.{
  String, Bytes, bytes_eq, [], some, ◌≡◌, refl, sym, ap, ◌∙◌, Outcome, returns, panics, Result, ok,
  err,
}
use mls_experimental_analysi.DsLib.{Mls}
use mls_experimental_analysi.DsLib.Codec.{Codec, Tls, got}
use mls_experimental_analysi.DsLib.RoundTrips.{RoundTrips}
use mls_experimental_analysi.Ds.{DsData}
use mls_experimental_analysi.Ds.Requests.{Request, handle}
use mls_experimental_analysi.Network.{Web, gets, posts, Call, ◌>>=◌, expect, body_of, get, post}
use mls_experimental_analysi.Network.Service.{Site, wire, service, respond, reply_of}

-- A call that went well is followed by the next.
pub bind-ok :
    {S A B : Type 0} (x : Call S A) (f : A → Call S B) (s s' : S) (a : A)
    → x s ≡ returns (s', ok a)
    → (x >>= f) s ≡ f a s'
bind-ok x f s s' a e = rw (◌>>=◌, e) refl

pub bind-err :
    {S A B : Type 0} (x : Call S A) (f : A → Call S B) (s s' : S) (message : String)
    → x s ≡ returns (s', err message)
    → (x >>= f) s ≡ returns (s', err message)
bind-err x f s s' message e = rw (◌>>=◌, e) refl

pub expect-ok :
    {S A : Type 0} (x : Call S A) (s s' : S) (a : A)
    → x s ≡ returns (s', ok a)
    → expect x s ≡ returns (s', ok a)
expect-ok x s s' a e = rw (expect, e) refl

pub expect-err :
    {S A B : Type 0} (x : Call S A) (f : A → Call S B) (s s' : S) (message : String)
    → x s ≡ returns (s', err message)
    → (expect x >>= f) s ≡ panics
expect-err x f s s' message e = rw (◌>>=◌, expect, e) refl

-- A value that was written is read with nothing left.
pub read-write :
    {A : Type 0} (c : Codec A)
    → RoundTrips c
    → (a : A) (out : Bytes) → c.write a ≡ some out
    → c.read out ≡ got a []
read-write c law a out e = ap c.read (sym (append-nil out)) ∙ law.back a out [] e

module _ {m : Mls} (tls : Tls m) {w : Web} (site : Site w) where
  -- The end of a request with a route.
  abbrev pub answer : Request → DsData m → Outcome (DsData m × Result Bytes)
  answer request d =
      let (d', response) = handle m (wire tls site) request d in
      returns (d', body_of w (reply_of tls response))

  pub get-handled :
      (url : w.Url) (request : Request) (d : DsData m)
      → site.route (gets url) ≡ some request
      → get (service tls site) url d ≡ answer request d
  unfolding get
  get-handled url request d e =
      ap
        (λ o.
          let (d', reply) = respond tls site o d in
          let r : Outcome (DsData m × Result Bytes) = returns (d', body_of w reply) in r)
        e

  pub post-handled :
      {A : Type 0} (codec : Codec A) (url : w.Url) (a : A) (out : Bytes) (request : Request)
      (d : DsData m)
      → codec.write a ≡ some out
      → site.route (posts url out) ≡ some request
      → post (service tls site) codec url a d ≡ answer request d
  unfolding post
  post-handled codec url a out request d written e =
      rw (◌>>=◌, written)
        (ap
          (λ o.
            let (d', reply) = respond tls site o d in
            let r : Outcome (DsData m × Result Bytes) = returns (d', body_of w reply) in r)
          e)
