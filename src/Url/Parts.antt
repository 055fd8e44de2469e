-- ===== src/Url/Parts.antt =====
-- parse of a text that is put together of the parts of a URL.
use mathlib.Core.List.{append-nil}
use gnu_my_server_gso_c.Base.{
  ℕ, ◌+◌, List, [], ◌∷◌, ◌++◌, false, Option, none, some, ◌==◌, length, drop, ◌≡◌, refl, ap, ◌∙◌,
}
use gnu_my_server_gso_c.Text.Decimal.{atoi}
use gnu_my_server_gso_c.Url.Parser.{
  Url, find_at, part, after, to_ushort, start_of_slash, offset_credentials, credentials_of, host_of,
  port_of, resource_of, query_of,
}
use gnu_my_server_gso_c.Url.Find.{
  Absent, drop_behind, find_behind, part_here, find_here, find_nowhere, drop_one,
}

-- The parts that a URL is written with.
pub record Pieces : Type 0 where
  pub protocol : List ℕ
  pub credentials : Option (List ℕ)
  pub host : List ℕ
  pub port : Option (List ℕ)
  pub resource : List ℕ
  pub query : Option (List ℕ)

unfoldable pub with_credentials : Option (List ℕ) → List ℕ → List ℕ
with_credentials none rest = rest
with_credentials (some c) rest = c ++ (64 ∷ rest)

unfoldable pub with_port : Option (List ℕ) → List ℕ → List ℕ
with_port none rest = rest
with_port (some d) rest = 58 ∷ (d ++ rest)

unfoldable pub with_query : Option (List ℕ) → List ℕ
with_query none = []
with_query (some q) = 63 ∷ q

unfoldable pub print : Pieces → List ℕ
unfolding with_credentials with_port with_query
print p =
    p.protocol
    ++ (58
        ∷ 47
        ∷ 47
        ∷ with_credentials p.credentials
            (p.host ++ with_port p.port (47 ∷ (p.resource ++ with_query p.query))))

unfoldable pub or_empty : Option (List ℕ) → List ℕ
or_empty none = []
or_empty (some xs) = xs

unfoldable pub port_value : ℕ → Option (List ℕ) → ℕ
unfolding atoi to_ushort
port_value default none = default
port_value default (some d) = to_ushort (atoi d)

-- The URL of the parts.
unfoldable pub url_of : Pieces → ℕ → Url
unfolding or_empty port_value
url_of p default = record {
  protocol = p.protocol;
  credentials = or_empty p.credentials;
  host = p.host;
  port = port_value default p.port;
  resource = p.resource;
  query = or_empty p.query;
}

-- Without credentials there is no "@" at all, and they have none of "@", ":" and "/".
abbrev pub PlainCredentials : Option (List ℕ) → List ℕ → Type 0
PlainCredentials none rest = Absent 64 rest
PlainCredentials (some c) rest = Absent 64 c × (Absent 58 c × Absent 47 c)

-- Without a port there is no ":" in the rest, and it has no "/".
abbrev pub PlainPort : Option (List ℕ) → List ℕ → Type 0
PlainPort none rest = Absent 58 rest
PlainPort (some d) rest = Absent 47 d

pub record IsPlain (p : Pieces) : Type 0 where
  pub protocol : Absent 58 p.protocol
  pub credentials :
      PlainCredentials p.credentials
        (p.host ++ with_port p.port (47 ∷ (p.resource ++ with_query p.query)))
  pub host : Absent 58 p.host × Absent 47 p.host
  pub port : PlainPort p.port (47 ∷ (p.resource ++ with_query p.query))
  pub resource : Absent 63 p.resource

-- The credentials, from the position `n` on.
unfoldable pub host_place : Option (List ℕ) → ℕ → ℕ
host_place none n = n
host_place (some c) n = n + length c + 1

module _ (s : List ℕ) (n : ℕ) (rest : List ℕ) where
  pub host_there :
      (o : Option (List ℕ)) → drop n s ≡ with_credentials o rest → drop (host_place o n) s ≡ rest
  unfolding with_credentials host_place
  host_there none h = h
  host_there (some c) h = drop_one s (n + length c) 64 rest (drop_behind s n c (64 ∷ rest) h)

  pub credentials_there :
      (o : Option (List ℕ))
      → drop n s ≡ with_credentials o rest
      → PlainCredentials o rest
      → (credentials_of s n (find_at 64 n s) ≡ or_empty o)
        × (offset_credentials n (find_at 64 n s) ≡ host_place o n)
  unfolding with_credentials host_place or_empty credentials_of offset_credentials
  credentials_there none h p = let e = find_nowhere s n 64 (rw h p) in rw e (refl, refl)
  credentials_there (some c) h p =
      let e =
        find_behind s n c (64 ∷ rest) h 64 p.0
        ∙ find_here s (n + length c) 64 rest (drop_behind s n c (64 ∷ rest) h) in
      rw e (part_here s n c (64 ∷ rest) h, refl)

  -- A character that the credentials do not have is found behind them.
  pub behind_credentials :
      (k : ℕ) (o : Option (List ℕ))
      → drop n s ≡ with_credentials o rest
      → ((c : List ℕ) → o ≡ some c → Absent k c)
      → (64 == k) ≡ false
      → find_at k n s ≡ find_at k (host_place o n) s
  unfolding with_credentials host_place
  behind_credentials k none h a e = refl
  behind_credentials k (some c) h a e =
      find_behind s n c (64 ∷ rest) h k (a c refl)
      ∙ find_behind s (n + length c) (64 ∷ []) rest (drop_behind s n c (64 ∷ rest) h) k (e, tt)

-- The port, from the position `n` on, and the first slash behind it.
unfoldable pub colon_place : Option (List ℕ) → ℕ → Option ℕ
colon_place none n = none
colon_place (some d) n = some n

unfoldable pub slash_place : Option (List ℕ) → ℕ → ℕ
slash_place none n = n
slash_place (some d) n = n + 1 + length d

module _ (s : List ℕ) (n : ℕ) (path : List ℕ) where
  pub slash_there :
      (o : Option (List ℕ))
      → drop n s ≡ with_port o (47 ∷ path)
      → drop (slash_place o n) s ≡ 47 ∷ path
  unfolding with_port slash_place
  slash_there none h = h
  slash_there (some d) h =
      drop_behind s (n + 1) d (47 ∷ path) (drop_one s n 58 (d ++ (47 ∷ path)) h)

  pub colon_there :
      (o : Option (List ℕ))
      → drop n s ≡ with_port o (47 ∷ path)
      → PlainPort o (47 ∷ path)
      → find_at 58 n s ≡ colon_place o n
  unfolding with_port colon_place
  colon_there none h p = find_nowhere s n 58 (rw h p)
  colon_there (some d) h p = find_here s n 58 (d ++ (47 ∷ path)) h

  pub first_slash_there :
      (start : ℕ) (o : Option (List ℕ))
      → drop n s ≡ with_port o (47 ∷ path)
      → PlainPort o (47 ∷ path)
      → find_at 47 start s ≡ find_at 47 n s
      → find_at 47 (start_of_slash start (colon_place o n)) s ≡ some (slash_place o n)
  unfolding with_port colon_place slash_place start_of_slash
  first_slash_there start none h p same = same ∙ find_here s n 47 path h
  first_slash_there start (some d) h p same =
      let behind = drop_one s n 58 (d ++ (47 ∷ path)) h in
      find_behind s (n + 1) d (47 ∷ path) behind 47 p
      ∙ find_here s (n + 1 + length d) 47 path (drop_behind s (n + 1) d (47 ∷ path) behind)

  pub port_there :
      (default : ℕ) (o : Option (List ℕ))
      → drop n s ≡ with_port o (47 ∷ path)
      → port_of s default (colon_place o n) (some (slash_place o n)) ≡ port_value default o
  unfolding with_port colon_place slash_place port_of port_value
  port_there default none h = refl
  port_there default (some d) h =
      ap (λ t. to_ushort (atoi t))
        (part_here s (n + 1) d (47 ∷ path) (drop_one s n 58 (d ++ (47 ∷ path)) h))

pub host_part :
    (s : List ℕ) (n : ℕ) (host rest : List ℕ) (o : Option (List ℕ))
    → drop n s ≡ host ++ rest
    → host_of s n (colon_place o (n + length host)) (some (slash_place o (n + length host))) ≡ host
unfolding colon_place slash_place host_of
host_part s n host rest none h = part_here s n host rest h
host_part s n host rest (some d) h = part_here s n host rest h

-- The resource and the query, behind the slash.
module _ (s : List ℕ) (n : ℕ) (resource : List ℕ) where
  query_there :
      (o : Option (List ℕ))
      → drop n s ≡ resource ++ with_query o
      → Absent 63 resource
      → (part s n (find_at 63 n s) ≡ resource) × (query_of s (find_at 63 n s) ≡ or_empty o)
  unfolding with_query or_empty query_of part
  query_there none h a =
      let e = find_nowhere s n 63 (rw (h, append-nil resource) a) in
      rw e (h ∙ append-nil resource, refl)
  query_there (some q) h a =
      let behind = drop_behind s n resource (63 ∷ q) h in
      let e =
        find_behind s n resource (63 ∷ q) h 63 a ∙ find_here s (n + length resource) 63 q behind in
      rw e (part_here s n resource (63 ∷ q) h, drop_one s (n + length resource) 63 q behind)

pub path_there :
    (s : List ℕ) (n : ℕ) (resource : List ℕ) (o : Option (List ℕ))
    → drop n s ≡ 47 ∷ (resource ++ with_query o)
    → Absent 63 resource
    → (resource_of s (some n) (find_at 63 (after (some n)) s) ≡ resource)
      × (query_of s (find_at 63 (after (some n)) s) ≡ or_empty o)
unfolding resource_of after
path_there s n resource o h a =
    query_there s (n + 1) resource o (drop_one s n 47 (resource ++ with_query o) h) a
