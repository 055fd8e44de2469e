-- ===== src/Url/Parser.antt =====
-- class Url: its fields, parse and getNumFields. Texts have less than 2 ^ 63 characters.
use gnu_my_server_gso_c.Base.{
  ℕ, ◌+◌, ◌-◌, ◌%◌, ◌^◌, List, [], ◌∷◌, Bool, false, ◌&&◌, Option, none, some, ltb, ◌==◌,
  if◌then◌else◌, length, take, drop,
}
use gnu_my_server_gso_c.Base.Int.{ℤ, pos, negsuc}
use gnu_my_server_gso_c.Text.Decimal.{atoi}

pub record Url : Type 0 where
  pub protocol : List ℕ
  pub credentials : List ℕ
  pub host : List ℕ
  pub port : ℕ
  pub resource : List ℕ
  pub query : List ℕ

unfoldable pub shifted : ℕ → Option ℕ → Option ℕ
shifted n none = none
shifted n (some i) = some (n + i)

unfoldable pub place_of : ℕ → List ℕ → Option ℕ
unfolding shifted
place_of c [] = none
place_of c (d ∷ ds) = if d == c then some 0 else shifted 1 (place_of c ds)

-- string::find of a character from a position; `none` is npos.
unfoldable pub find_at : ℕ → ℕ → List ℕ → Option ℕ
unfolding place_of shifted
find_at c n s = shifted n (place_of c (drop n s))

-- At "://".
unfoldable pub starts_scheme : List ℕ → Bool
starts_scheme (a ∷ b ∷ c ∷ cs) = a == 58 && b == 47 && c == 47
starts_scheme cs = false

unfoldable pub find_scheme : List ℕ → Option ℕ
unfolding starts_scheme shifted
find_scheme [] = none
find_scheme (c ∷ cs) = if starts_scheme (c ∷ cs) then some 0 else shifted 1 (find_scheme cs)

-- substr (from, to - from). A count that would be negative wraps, and one from npos is at least as
-- large as the text: both reach the end.
unfoldable pub part : List ℕ → ℕ → Option ℕ → List ℕ
part s from none = drop from s
part s from (some to) = if ltb to from then drop from s else take (to - from) (drop from s)

-- The position behind; npos + 1 is 0.
unfoldable pub after : Option ℕ → ℕ
after none = 0
after (some i) = i + 1

-- The conversion to u_short.
unfoldable pub to_ushort : ℤ → ℕ
to_ushort (pos n) = n % 2 ^ 16
to_ushort (negsuc n) = 2 ^ 16 - 1 - n % 2 ^ 16

unfoldable pub start_of_slash : ℕ → Option ℕ → ℕ
start_of_slash start none = start
start_of_slash start (some i) = i + 1

unfoldable pub offset_credentials : ℕ → Option ℕ → ℕ
offset_credentials start none = start
offset_credentials start (some i) = i + 1

unfoldable pub credentials_of : List ℕ → ℕ → Option ℕ → List ℕ
unfolding part
credentials_of url start none = []
credentials_of url start (some i) = part url start (some i)

unfoldable pub host_of : List ℕ → ℕ → Option ℕ → Option ℕ → List ℕ
unfolding part
host_of url offset none slash = part url offset slash
host_of url offset (some i) slash = part url offset (some i)

unfoldable pub port_of : List ℕ → ℕ → Option ℕ → Option ℕ → ℕ
unfolding part atoi to_ushort
port_of url default none slash = default
port_of url default (some i) slash = to_ushort (atoi (part url (i + 1) slash))

unfoldable pub resource_of : List ℕ → Option ℕ → Option ℕ → List ℕ
unfolding part after
resource_of url slash question = part url (after slash) question

unfoldable pub query_of : List ℕ → Option ℕ → List ℕ
query_of url none = []
query_of url (some i) = drop (i + 1) url

-- parse, after the protocol, which ends at `proto_end`.
unfoldable pub parse_rest : List ℕ → ℕ → ℕ → Url
unfolding find_at after part start_of_slash offset_credentials credentials_of host_of port_of
    resource_of query_of
parse_rest url default proto_end =
    let start = proto_end + 3 in
    let port_loc = find_at 58 start url in
    let first_slash = find_at 47 (start_of_slash start port_loc) url in
    let credential_start = find_at 64 start url in
    let offset = offset_credentials start credential_start in
    let query_start = find_at 63 (after first_slash) url in
    record {
      protocol = take proto_end url;
      credentials = credentials_of url start credential_start;
      host = host_of url offset port_loc first_slash;
      port = port_of url default port_loc first_slash;
      resource = resource_of url first_slash query_start;
      query = query_of url query_start;
    }

unfoldable pub parse_found : List ℕ → ℕ → Option ℕ → Option Url
unfolding parse_rest
parse_found url default none = none
parse_found url default (some proto_end) = some (parse_rest url default proto_end)

-- parse; `none` if it leaves the fields as they are.
unfoldable pub parse : List ℕ → ℕ → Option Url
unfolding find_scheme parse_found
parse url default = parse_found url default (find_scheme url)

unfoldable pub count_of : ℕ → List ℕ → ℕ
count_of c [] = 0
count_of c (d ∷ ds) = (if d == c then 1 else 0) + count_of c ds

unfoldable pub get_num_fields : Url → ℕ
unfolding count_of
get_num_fields u = (if length u.query == 0 then 0 else 1) + count_of 38 u.query
