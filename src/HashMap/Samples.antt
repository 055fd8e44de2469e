-- ===== src/HashMap/Samples.antt =====
-- A key type and a float type for runs of the hash table: numbers of one byte, and thousandths.
use gnu_my_server_gso_c.Base.{ℕ, ◌*◌, ◌/◌, [], ◌∷◌, ltb, ◌==◌, ==_iff}
use gnu_my_server_gso_c.HashMap.Types.{Key, Float}

-- The key is one byte.
instance unfoldable pub letter : Key ℕ
letter = record { bytes = λ n. n ∷ []; eq = ◌==◌; eq_iff = ==_iff }

abbrev pub thousandths : Float
thousandths = record {
  F = ℕ;
  of_int = λ n. n * 1000;
  three_quarters = 750;
  div = λ a b. a * 1000 / b;
  mul = λ a b. a * b / 1000;
  lt = ltb;
}
