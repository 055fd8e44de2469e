-- ===== src/HashMap/Types.antt =====
-- What the templates of hash_map.h are generic in, and struct Shkv.
-- The four specialisations differ in the bytes that `hash` reads and in the test on keys.
use gnu_my_server_gso_c.Base.{ℕ, Bool, true, List, ◌≡◌, ◌↔◌}

-- A key type: the bytes that are hashed (`&key`, `c_str ()` or the pointer's target), and `==` or
-- `strcmp`.
pub record Key {ℓ} (K : Type ℓ) : Type ℓ where
  pub bytes : K → List ℕ
  pub eq : K → K → Bool
  pub eq_iff : (a b : K) → (eq a b ≡ true) ↔ (a ≡ b)

-- The type `float` with the operations on it that the table uses. Nothing is assumed of them.
pub record Float : Type 1 where
  pub F : Type 0
  pub of_int : ℕ → F
  pub three_quarters : F
  pub div : F → F → F
  pub mul : F → F → F
  pub lt : F → F → Bool

pub record Shkv {ℓ} (K V : Type ℓ) : Type ℓ where
  pub hash : ℕ
  pub key : K
  pub value : V

-- `buckets` is the field `data` and `stamps` the field `map`.
-- `capacity`, `power`, `mask` and `load` are never negative; `offset` is an unsigned int.
pub record HashMap {ℓ} (fl : Float) (K V : Type ℓ) : Type ℓ where
  pub buckets : List (List (Shkv K V))
  pub stamps : List ℕ
  pub offset : ℕ
  pub capacity : ℕ
  pub power : ℕ
  pub mask : ℕ
  pub load : ℕ
  pub high_load_factor : fl.F
  pub low_load_factor : fl.F
