-- ===== src/Network/Directory.antt =====
-- The group infos and key packages of network/backend.rs when they reach the service.
use mls_experimental_analysi.Base.{
  String, append, Bytes, bytes_eq, true, false, List, [], none, some, ◌≡◌, ◌≢◌, ◌∷◌, refl, sym, ap,
  ◌∙◌, Bool-cases, inl, inr, if_then, if_else, arith, if◌then◌else◌, returns, panics, ok, err,
}
use mls_experimental_analysi.Base.Dict.{lookup, insert, lookup-insert_self}
use mls_experimental_analysi.DsLib.{Mls, GroupInfoAndTree, HashedPackage}
use mls_experimental_analysi.DsLib.Codec.{Tls, packages_codec, info_codec, write_info}
use mls_experimental_analysi.DsLib.RoundTrips.{TlsLaws, info-RoundTrips}
use mls_experimental_analysi.Ds.{DsData, Response, set_group_info}
use mls_experimental_analysi.Ds.Requests.{handle}
use mls_experimental_analysi.Ds.Handlers.{
  get_group_info, post_group_info, publish_key_packages as handle_key_packages,
}
use mls_experimental_analysi.Network.{Web, ◌>>=◌, expect, pure, decoded, body_of, get, post}
use mls_experimental_analysi.Network.Backend.{
  group_info, publish_group_info, publish_key_packages, under, named,
}
use mls_experimental_analysi.Network.Service.{is_plain, Site, SiteLaws, wire, service, value}
use mls_experimental_analysi.Network.Handled.{
  bind-ok, bind-err, expect-ok, expect-err, read-write, get-handled, post-handled,
}

module _ {m : Mls} (tls : Tls m) (laws : TlsLaws tls) {w : Web} (site : Site w)
    (site_laws : SiteLaws site) where
  module _ (group_name : String) (info : GroupInfoAndTree m) (out : Bytes) (d : DsData m)
      (written : write_info tls info ≡ some out) (sound : d.group_info.poisoned ≡ false)
      (some_name : tls.as_bytes group_name ≢ []) where
    abbrev id : Bytes
    id = tls.as_bytes group_name

    abbrev published : DsData m
    published = set_group_info d (insert id (some info) d.group_info.content)

    abbrev served : DsData m
    served =
        if d.group_info_mutex
        then set_group_info published (insert id none published.group_info.content)
        else published

    posted :
        post_group_info m (wire tls site) (w.encode id) (site.chunks out) d
        ≡ (published, Response.done)
    unfolding post_group_info
    posted = ground (
      arith,
      site_laws.read_body-chunks out,
      site_laws.decode_id-encode id,
      ap value (read-write (info_codec tls) (info-RoundTrips tls laws) info out written),
    )

    given : get_group_info m (wire tls site) (w.encode id) published ≡ (served, Response.body out)
    unfolding get_group_info
    given = ground (
      arith,
      site_laws.decode_id-encode id,
      lookup-insert_self id (some info) d.group_info.content,
    )

    forbidden :
        d.group_info_mutex ≡ true
        → get_group_info m (wire tls site) (w.encode id) served ≡ (served, Response.forbidden)
    unfolding get_group_info
    forbidden on = ground (
      arith,
      site_laws.decode_id-encode id,
      lookup-insert_self id none (insert id (some info) d.group_info.content),
    )

    given_again :
        d.group_info_mutex ≡ false
        → get_group_info m (wire tls site) (w.encode id) served ≡ (served, Response.body out)
    unfolding get_group_info
    given_again off = ground (
      arith,
      site_laws.decode_id-encode id,
      lookup-insert_self id (some info) d.group_info.content,
    )

    abbrev url : String → w.Url
    url username =
        named tls (service tls site) site.base username
          (under tls (service tls site) site.base "/groups/group_info/" id)

    module _ (username : String) (plain : is_plain username ≡ true) (before after : DsData m) where
      call :
          get_group_info m (wire tls site) (w.encode id) before ≡ (after, Response.body out)
          → group_info tls (service tls site) site.base username group_name before
            ≡ returns (after, ok info)
      unfolding group_info handle body_of
      call e =
          bind-ok (get (service tls site) (url username))
            (λ response. decoded "Error decoding server response" ((info_codec tls).read response))
            before after out
            (get-handled tls site (url username) _ before
                (site_laws.get_group_info id username some_name plain)
              ∙ rw e refl)
          ∙ rw (decoded, read-write (info_codec tls) (info-RoundTrips tls laws) info out written)
              refl

      call-forbidden :
          get_group_info m (wire tls site) (w.encode id) before ≡ (after, Response.forbidden)
          → group_info tls (service tls site) site.base username group_name before
            ≡ returns (after, err (append "Error status code " (w.status_text 403)))
      unfolding group_info handle body_of
      call-forbidden e =
          bind-err (get (service tls site) (url username))
            (λ response. decoded "Error decoding server response" ((info_codec tls).read response))
            before after (append "Error status code " (w.status_text 403))
            (get-handled tls site (url username) _ before
                (site_laws.get_group_info id username some_name plain)
              ∙ rw e refl)

    called_again :
        (late : String)
        → is_plain late ≡ true
        → group_info tls (service tls site) site.base late group_name served ≡ (
            if d.group_info_mutex
            then returns (served, err (append "Error status code " (w.status_text 403)))
            else returns (served, ok info))
    called_again late plain = elim (Bool-cases d.group_info_mutex) [
      | inl on ↦ call-forbidden late plain served served (forbidden on) ∙ sym (if_then _ _ on)
      | inr off ↦ call late plain served served (given_again off) ∙ sym (if_else _ _ off)
    ]

    -- Under the laws of the codecs and of the server, while the lock is sound, for a group whose
    -- name is not empty and users with plain names, a group info that can be written and is
    -- published by one client is what `group_info` returns to the next that asks for it, whatever
    -- was there before; one that asks after that gets the error for the status 403 if the group
    -- info mutex is on, and the same group info if it is off.
    pub group_info-publish_group_info :
        (publisher reader late : String)
        → is_plain publisher ≡ true
        → is_plain reader ≡ true
        → is_plain late ≡ true
        → (published served : DsData m) × (publish_group_info tls
              (service tls site)
              site.base
              publisher
              group_name
              info
              d
            ≡ returns (published, ok tt))
          × (group_info tls (service tls site) site.base reader group_name published
              ≡ returns (served, ok info))
          × (group_info tls (service tls site) site.base late group_name served ≡ (
              if d.group_info_mutex
              then returns (served, err (append "Error status code " (w.status_text 403)))
              else returns (served, ok info)))
    unfolding publish_group_info handle body_of
    group_info-publish_group_info publisher reader late one two three = (
      published,
      served,
      bind-ok (expect (post (service tls site) (info_codec tls) (url publisher) info))
          (λ _. pure tt) d published []
          (expect-ok (post (service tls site) (info_codec tls) (url publisher) info) d published []
            (post-handled tls site (info_codec tls) (url publisher) info out _ d written
                (site_laws.post_group_info id publisher out some_name one)
              ∙ rw posted refl)),
      call reader two published served given,
      called_again late three,
    )

  unknown_client :
      (id out : Bytes) (d : DsData m)
      → d.clients.poisoned ≡ false
      → lookup id d.clients.content ≡ none
      → handle_key_packages m (wire tls site) (w.encode id) (site.chunks out) d
        ≡ (d, Response.not_found)
  unfolding handle_key_packages
  unknown_client id out d sound unknown =
      ground (arith, site_laws.read_body-chunks out, site_laws.decode_id-encode id)

  refused :
      (id : Bytes) (kps : List (HashedPackage m)) (out : Bytes) (d : DsData m)
      → (packages_codec tls).write kps ≡ some out
      → d.clients.poisoned ≡ false
      → lookup id d.clients.content ≡ none
      → post
          (service tls site)
          (packages_codec tls)
          (under tls (service tls site) site.base "/clients/key_packages/" id)
          kps
          d
        ≡ returns (d, err (append "Error status code " (w.status_text 404)))
  unfolding handle body_of post
  refused [] kps out d written sound unknown =
      rw (◌>>=◌, written, site_laws.no_key_packages out) refl
  refused (x ∷ xs) kps out d written sound unknown =
      let id : Bytes = x ∷ xs in
      post-handled tls site (packages_codec tls) _ kps out _ d written
        (site_laws.key_packages id out (λ e. cc))
      ∙ rw (unknown_client id out d sound unknown) refl

  -- Under the laws of the codecs and of the server, while the lock is sound, a client that
  -- publishes key packages, which can be written, for an identity that is not registered panics in
  -- place of returning an error.
  pub publish_key_packages-panics :
      (id : Bytes) (kps : List (HashedPackage m)) (out : Bytes) (d : DsData m)
      → (packages_codec tls).write kps ≡ some out
      → d.clients.poisoned ≡ false
      → lookup id d.clients.content ≡ none
      → publish_key_packages tls (service tls site) site.base id kps d ≡ panics
  unfolding publish_key_packages handle body_of
  publish_key_packages-panics id kps out d written sound unknown =
      let url = under tls (service tls site) site.base "/clients/key_packages/" id in
      expect-err (post (service tls site) (packages_codec tls) url kps) (λ _. pure tt) d d
        (append "Error status code " (w.status_text 404))
        (refused id kps out d written sound unknown)
