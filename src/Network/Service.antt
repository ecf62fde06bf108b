-- ===== src/Network/Service.antt =====
-- The delivery service of ds/src/main.rs as what the client of network/backend.rs reaches: the
-- routes, the serializers of ds-lib/src/lib.rs and the statuses of the responses.
use Prim.Native.Char.{code}
use mls_experimental_analysi.Base.{
  ℕ, nat_eq, ◌==◌, leb, Bool, true, ◌&&◌, ◌||◌, ◌≢◌, String, append, Bytes, [], Option, none, some,
  if◌then◌else◌, ◌≡◌, returns, ok,
}
use mls_experimental_analysi.DsLib.{Mls, ClientInfo, GroupMessage}
use mls_experimental_analysi.DsLib.Codec.{
  Tls, Read, got, failed, crashed, read_parts, packages_codec, client_codec, message_codec,
  info_codec,
}
use mls_experimental_analysi.Ds.{DsData, Content, Response, Wire, Payload, read_body}
use mls_experimental_analysi.Ds.Requests.{Request, handle}
use mls_experimental_analysi.Network.{Web, HttpRequest, gets, posts, Reply, Http}

abbrev pub value : {A : Type 0} → Read A → Option A
value (got a rest) = some a
value failed = none
value crashed = none

-- The server of `actix_web`: where it listens, how it finds the handler of a request, how it cuts a
-- body into chunks, and how `base64` decodes a path.
pub record Site (w : Web) : Type 0 where
  pub base : w.Url
  pub route : HttpRequest w → Option Request
  pub chunks : Bytes → Payload
  pub decode_id : String → Option Bytes

-- A name of letters, digits and underscores, which a query carries as it is.
abbrev is_plain_code : ℕ → Bool
is_plain_code n =
    ((leb 48 n && leb n 57) || (leb 65 n && leb n 90)) || (leb 97 n && leb n 122) || n == 95

abbrev pub is_plain : String → Bool
is_plain String.[] = true
is_plain (String.◌∷◌ c s) = is_plain_code (code c) && is_plain s

-- Its documented behaviour on the routes that the handlers declare.
pub record SiteLaws {w : Web} (site : Site w) : Type 0 where
  pub decode_id-encode : (id : Bytes) → site.decode_id (w.encode id) ≡ some id
  pub read_body-chunks : (bytes : Bytes) → read_body (site.chunks bytes) ≡ some bytes
  pub send_message :
      (bytes : Bytes)
      → site.route (posts (w.set_path "/send/message" site.base) bytes)
        ≡ some (Request.sends_message (site.chunks bytes))
  -- A segment `{id}` of a path is not empty.
  pub recv :
      (id : Bytes)
      → id ≢ []
      → site.route (gets (w.set_path (append "/recv/" (w.encode id)) site.base))
        ≡ some (Request.receives (w.encode id))
  pub key_packages :
      (id bytes : Bytes)
      → id ≢ []
      → site.route
          (posts (w.set_path (append "/clients/key_packages/" (w.encode id)) site.base) bytes)
        ≡ some (Request.publishes_key_packages (w.encode id) (site.chunks bytes))
  pub no_key_packages :
      (bytes : Bytes)
      → site.route
          (posts (w.set_path (append "/clients/key_packages/" (w.encode [])) site.base) bytes)
        ≡ none
  -- A query with a plain name of a user is read.
  pub get_group_info :
      (id : Bytes) (username : String)
      → id ≢ []
      → is_plain username ≡ true
      → site.route (
          gets (
            w.set_query
              (append "username=" username)
              (w.set_path (append "/groups/group_info/" (w.encode id)) site.base)))
        ≡ some (Request.gets_group_info (w.encode id))
  pub post_group_info :
      (id : Bytes) (username : String) (bytes : Bytes)
      → id ≢ []
      → is_plain username ≡ true
      → site.route (
          posts
            (w.set_query
              (append "username=" username)
              (w.set_path (append "/groups/group_info/" (w.encode id)) site.base))
            bytes)
        ≡ some (Request.posts_group_info (w.encode id) (site.chunks bytes))

module _ {m : Mls} (tls : Tls m) where
  -- What the handlers write into a body.
  abbrev pub write_content : Content m → Option Bytes
  write_content (Content.client_list clients) =
      (tls.vec_u32 (ClientInfo m) (client_codec tls)).write clients
  write_content (Content.key_package_list kps) = (packages_codec tls).write kps
  write_content (Content.key_package kp) = tls.key_package.write kp
  write_content (Content.group_info_and_tree info) = (info_codec tls).write info
  write_content (Content.message_list msgs) =
      (tls.vec_u32 (GroupMessage m) (message_codec tls)).write msgs

  -- The status and the body of a response; none after a panic.
  abbrev pub reply_of : Response → Reply
  reply_of Response.done = Reply.response 200 (ok [])
  reply_of (Response.welcome name) =
      Reply.response 200 (ok (tls.as_bytes (append "Welcome " (append name "!\n"))))
  reply_of (Response.exists known) =
      Reply.response 200 (ok (tls.as_bytes (if known then "true" else "false")))
  reply_of (Response.body bytes) = Reply.response 200 (ok bytes)
  reply_of Response.no_content = Reply.response 204 (ok [])
  reply_of Response.partial_content = Reply.response 206 (ok [])
  reply_of Response.bad_request = Reply.response 400 (ok [])
  reply_of Response.forbidden = Reply.response 403 (ok [])
  reply_of Response.not_found = Reply.response 404 (ok [])
  reply_of Response.conflict = Reply.response 409 (ok [])
  reply_of Response.internal_server_error = Reply.response 500 (ok [])
  reply_of Response.crashed = Reply.no_response "connection closed"

  module _ {w : Web} (site : Site w) where
    abbrev pub wire : Wire m
    wire = record {
      decode_id = site.decode_id;
      client_info = λ bytes. value (read_parts tls bytes);
      client_key_packages = λ bytes. value ((packages_codec tls).read bytes);
      group_info = λ bytes. value ((info_codec tls).read bytes);
      group_message = λ bytes. value ((message_codec tls).read bytes);
      serialize = write_content;
    }

    -- A request without a route is answered with 404.
    abbrev pub respond : Option Request → DsData m → DsData m × Reply
    respond none d = (d, Reply.response 404 (ok []))
    respond (some request) d =
        let (d', response) = handle m wire request d in (d', reply_of response)

    -- The service as all that a client reaches.
    abbrev pub service : Http w
    service = record {
      State = DsData m;
      send = λ request d. returns (respond (site.route request) d);
    }
