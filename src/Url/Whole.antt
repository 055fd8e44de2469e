-- ===== src/Url/Whole.antt =====
-- parse gives the parts of a URL.
use gnu_my_server_gso_c.Base.{
  ℕ, ◌+◌, List, ◌∷◌, ◌++◌, false, some, ◌==◌, length, take, drop, ◌≡◌, refl, ap, ◌∙◌, subst,
}
use gnu_my_server_gso_c.Url.Parser.{
  find_at, find_scheme, start_of_slash, parse_rest, parse_found, parse,
}
use gnu_my_server_gso_c.Url.Find.{
  Absent, find_behind, take-append_all, drop_behind, drop_scheme, find_scheme_here,
}
use gnu_my_server_gso_c.Url.Parts.{
  Pieces, with_credentials, with_port, with_query, print, url_of, PlainCredentials, IsPlain,
  host_place, colon_place, slash_place, host_there, credentials_there, behind_credentials,
  slash_there, colon_there, first_slash_there, port_there, host_part, path_there,
}

module _ (p : Pieces) (plain : IsPlain p) where
  abbrev s : List ℕ
  s = print p

  abbrev path : List ℕ
  path = p.resource ++ with_query p.query

  abbrev server : List ℕ
  server = p.host ++ with_port p.port (47 ∷ path)

  abbrev start : ℕ
  start = length p.protocol + 3

  abbrev host_at : ℕ
  host_at = host_place p.credentials start

  abbrev port_at : ℕ
  port_at = host_at + length p.host

  abbrev slash_at : ℕ
  slash_at = slash_place p.port port_at

  at_start : drop start s ≡ with_credentials p.credentials server
  unfolding print
  at_start = drop_scheme p.protocol 58 47 47 (with_credentials p.credentials server)

  at_host : drop host_at s ≡ server
  at_host = host_there s start server p.credentials at_start

  at_port : drop port_at s ≡ with_port p.port (47 ∷ path)
  at_port = drop_behind s host_at p.host (with_port p.port (47 ∷ path)) at_host

  not_in_credentials :
      (k : ℕ)
      → ((c : List ℕ) → PlainCredentials (some c) server → Absent k c)
      → (c : List ℕ) → p.credentials ≡ some c
      → Absent k c
  not_in_credentials k f c e = f c (subst (λ o. PlainCredentials o server) e plain.credentials)

  -- A character that neither the credentials nor the host have is found behind the host.
  behind_host :
      (k : ℕ)
      → ((c : List ℕ) → p.credentials ≡ some c → Absent k c)
      → (64 == k) ≡ false
      → Absent k p.host
      → find_at k start s ≡ find_at k port_at s
  behind_host k f e a =
      behind_credentials s start server k p.credentials at_start f e
      ∙ find_behind s host_at p.host (with_port p.port (47 ∷ path)) at_host k a

  colon : find_at 58 start s ≡ colon_place p.port port_at
  colon =
      behind_host 58 (not_in_credentials 58 (λ c h. h.1.0)) refl plain.host.0
      ∙ colon_there s port_at path p.port at_port plain.port

  slash : find_at 47 (start_of_slash start (colon_place p.port port_at)) s ≡ some slash_at
  slash =
      first_slash_there s port_at path start p.port at_port plain.port
        (behind_host 47 (not_in_credentials 47 (λ c h. h.1.1)) refl plain.host.1)

  protocol_there : take (length p.protocol) s ≡ p.protocol
  unfolding print
  protocol_there = take-append_all p.protocol (58 ∷ 47 ∷ 47 ∷ with_credentials p.credentials server)

  parse_rest-print : (default : ℕ) → parse_rest s default (length p.protocol) ≡ url_of p default
  unfolding parse_rest url_of
  parse_rest-print default =
      let user = credentials_there s start server p.credentials at_start plain.credentials in
      let rest =
        path_there s slash_at p.resource p.query (slash_there s port_at path p.port at_port)
          plain.resource in
      rw
        (
          colon,
          slash,
          user.0,
          user.1,
          rest.0,
          rest.1,
          host_part s host_at p.host (with_port p.port (47 ∷ path)) p.port at_host,
          port_there s port_at path default p.port at_port,
          protocol_there,
        )
        refl

found_scheme : (p : Pieces) → IsPlain p → find_scheme (print p) ≡ some (length p.protocol)
unfolding print
found_scheme p plain = find_scheme_here p.protocol _ plain.protocol

-- parse of a text that is put together of a protocol, credentials or none, a host, a port or none, a
-- resource, and a query or none, gives these parts, with the default port where none is written; the
-- port is what atoi makes of its text, as a u_short. The protocol and the host have no colon, and no
-- part before the resource has a slash, nor the resource a question mark. Credentials have no colon
-- and no "@"; without them there is no "@" in the rest, and without a port no colon.
pub parse-print :
    (p : Pieces) (default : ℕ) → IsPlain p → parse (print p) default ≡ some (url_of p default)
unfolding parse parse_found
parse-print p default plain = rw (found_scheme p plain) (ap some (parse_rest-print p plain default))
