-- ===== src/Url/Tests.antt =====
-- The theorem on URLs at a concrete URL, and runs of the parser.
use gnu_my_server_gso_c.Base.{List, [], ◌∷◌, Option, none, some, ℕ, ◌≡◌, refl}
use gnu_my_server_gso_c.Url.Parser.{Url, parse, get_num_fields}
use gnu_my_server_gso_c.Url.Parts.{Pieces, print, url_of, IsPlain}
use gnu_my_server_gso_c.Url.Whole.{parse-print}

-- "ab://u@h:80/r?x=1".
abbrev pieces : Pieces
pieces = record {
  protocol = 97 ∷ 98 ∷ [];
  credentials = some (117 ∷ []);
  host = 104 ∷ [];
  port = some (56 ∷ 48 ∷ []);
  resource = 114 ∷ [];
  query = some (120 ∷ 61 ∷ 49 ∷ []);
}

pieces-IsPlain : IsPlain pieces
pieces-IsPlain = record {
  protocol = (refl, (refl, tt));
  credentials = ((refl, tt), ((refl, tt), (refl, tt)));
  host = ((refl, tt), (refl, tt));
  port = (refl, (refl, tt));
  resource = (refl, tt);
}

parse-print_example : parse (print pieces) 21 ≡ some (url_of pieces 21)
parse-print_example = parse-print pieces 21 pieces-IsPlain

abbrev host? : Option Url → List ℕ
host? none = []
host? (some u) = u.host

abbrev resource? : Option Url → List ℕ
resource? none = []
resource? (some u) = u.resource

abbrev fields? : Option Url → ℕ
fields? none = 0
fields? (some u) = get_num_fields u

-- "a://h/x?p&q".
fields_run : fields? (parse (97 ∷ 58 ∷ 47 ∷ 47 ∷ 104 ∷ 47 ∷ 120 ∷ 63 ∷ 112 ∷ 38 ∷ 113 ∷ []) 80) ≡ 2
unfolding parse get_num_fields
fields_run = refl

-- "a://u:w@h/x" has the host "h/x".
password_in_credentials :
    host? (parse (97 ∷ 58 ∷ 47 ∷ 47 ∷ 117 ∷ 58 ∷ 119 ∷ 64 ∷ 104 ∷ 47 ∷ 120 ∷ []) 80)
    ≡ 104 ∷ 47 ∷ 120 ∷ []
unfolding parse
password_in_credentials = refl

-- "a://h" has itself as its resource.
no_slash : resource? (parse (97 ∷ 58 ∷ 47 ∷ 47 ∷ 104 ∷ []) 80) ≡ 97 ∷ 58 ∷ 47 ∷ 47 ∷ 104 ∷ []
unfolding parse
no_slash = refl
