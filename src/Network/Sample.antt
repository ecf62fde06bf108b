-- ===== src/Network/Sample.antt =====
-- A server and its paths: a byte of an encoded name is that many letters and a letter for its end.
use Prim.Native.Char.{Char, char, code}
use mathlib.Core.List.{append-nil}
use mls_experimental_analysi.Base.{
  ℕ, zero, suc, ◌+◌, String, Bytes, true, false, [], ◌∷◌, Option, none, some, ◌==◌, nat_eq, ◌≡◌,
  ◌≢◌, refl, ap, ◌∙◌, arith,
}
use mls_experimental_analysi.Ds.{read_body}
use mls_experimental_analysi.Ds.Requests.{Request}
use mls_experimental_analysi.DsLib.SampleText.{codes, of_codes, of_codes-codes, codes-append}
use mls_experimental_analysi.Network.{Web, HttpRequest, gets, posts}
use mls_experimental_analysi.Network.Service.{Site, SiteLaws}

put : ℕ → String → String
put zero s = String.◌∷◌ (char 98 tt) s
put (suc n) s = String.◌∷◌ (char 97 tt) (put n s)

pub encode : Bytes → String
encode [] = ""
encode (n ∷ rest) = put n (encode rest)

pub decode_from : ℕ → String → Bytes
decode_from k String.[] = []
decode_from k (String.◌∷◌ c s) = elim (code c == 98) [
  | true ↦ k ∷ decode_from 0 s
  | false ↦ decode_from (suc k) s
]

decode_from-put : (n k : ℕ) (s : String) → decode_from k (put n s) ≡ (k + n) ∷ decode_from 0 s
unfolding decode_from put
decode_from-put zero k s = ap (λ x. x ∷ decode_from 0 s) (omega arith)
decode_from-put (suc n) k s =
    decode_from-put n (suc k) s ∙ ap (λ x. x ∷ decode_from 0 s) (omega arith)

decode_from-encode : (bytes : Bytes) → decode_from 0 (encode bytes) ≡ bytes
unfolding encode decode_from
decode_from-encode [] = refl
decode_from-encode (n ∷ rest) =
    decode_from-put n 0 (encode rest)
    ∙ ap (λ r. (0 + n) ∷ r) (decode_from-encode rest)
    ∙ ap (λ x. x ∷ rest) (omega arith)

-- A path and a query.
abbrev pub web : Web
web = record {
  Url = String × String;
  set_path = λ path url. (path, url.1);
  set_query = λ query url. (url.0, query);
  encode = encode;
  status_text = λ status. "refused";
}

-- An empty rest has no route.
abbrev rest_of : (String → Request) → Bytes → Option Request
rest_of make [] = none
rest_of make (x ∷ path) = elim (of_codes (x ∷ path)) [ none ↦ none | some id ↦ some (make id) ]

rest_of-cons :
    (make : String → Request) (c : Char) (s : String)
    → rest_of make (codes (String.◌∷◌ c s)) ≡ some (make (String.◌∷◌ c s))
rest_of-cons make c s =
    ap (λ o. elim o as (λ _. Option Request) [ none ↦ none | some id ↦ some (make id) ])
      (of_codes-codes (String.◌∷◌ c s))

rest_of-encode :
    (make : String → Request) (id : Bytes)
    → id ≢ []
    → rest_of make (codes (encode id)) ≡ some (make (encode id))
unfolding encode put
rest_of-encode make [] ne = absurd (ne refl)
rest_of-encode make (zero ∷ rest) ne = rest_of-cons make (char 98 tt) (encode rest)
rest_of-encode make (suc n ∷ rest) ne = rest_of-cons make (char 97 tt) (put n (encode rest))

-- The first letter after the slash tells the routes of a method apart, and the ends of the constant
-- parts are at letters 6, 14, 19, 21 and 22.
abbrev drop : ℕ → Bytes → Bytes
drop zero xs = xs
drop (suc n) [] = []
drop (suc n) (x ∷ xs) = drop n xs

abbrev letter : Bytes → ℕ
letter [] = 0
letter (slash ∷ []) = 0
letter (slash ∷ x ∷ xs) = x

abbrev route_get : Bytes → Option Request
route_get path = elim (letter path == 114) [
  | true ↦ rest_of Request.receives (drop 6 path)
  | false ↦ elim (letter path == 103) [
    | true ↦ rest_of Request.gets_group_info (drop 19 path)
    | false ↦ rest_of Request.consumes_key_package (drop 21 path)
  ]
]

abbrev route_post : Bytes → Bytes → Option Request
route_post path body = elim (letter path == 115) [
  | true ↦ some (Request.sends_message (some body ∷ []))
  | false ↦ elim (letter path == 103) [
    | true ↦ rest_of (λ id. Request.posts_group_info id (some body ∷ [])) (drop 19 path)
    | false ↦ rest_of (λ id. Request.publishes_key_packages id (some body ∷ [])) (drop 22 path)
  ]
]

abbrev route : HttpRequest web → Option Request
route (gets url) = route_get (codes url.0)
route (posts url body) = route_post (codes url.0) body

abbrev pub site : Site web
site = record {
  base = ("/", "");
  route = route;
  chunks = λ bytes. some bytes ∷ [];
  decode_id = λ path. some (decode_from 0 path);
}

read_body-chunk : (bytes : Bytes) → read_body (some bytes ∷ []) ≡ some bytes
unfolding read_body
read_body-chunk bytes = ap some (append-nil bytes)

pub site_laws : SiteLaws site
unfolding encode
site_laws = record {
  decode_id-encode = λ id. ap some (decode_from-encode id);
  read_body-chunks = λ bytes. read_body-chunk bytes;
  send_message = λ bytes. refl;
  recv = λ id ne.
      ap route_get (codes-append "/recv/" (encode id)) ∙ rest_of-encode Request.receives id ne;
  key_packages = λ id bytes ne.
      ap (λ path. route_post path bytes) (codes-append "/clients/key_packages/" (encode id))
      ∙ rest_of-encode (λ name. Request.publishes_key_packages name (some bytes ∷ [])) id ne;
  no_key_packages = λ bytes.
      ap (λ path. route_post path bytes) (codes-append "/clients/key_packages/" (encode []));
  get_group_info = λ id username ne plain.
      ap route_get (codes-append "/groups/group_info/" (encode id))
      ∙ rest_of-encode Request.gets_group_info id ne;
  post_group_info = λ id username bytes ne plain.
      ap (λ path. route_post path bytes) (codes-append "/groups/group_info/" (encode id))
      ∙ rest_of-encode (λ name. Request.posts_group_info name (some bytes ∷ [])) id ne;
}
