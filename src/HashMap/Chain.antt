-- ===== src/HashMap/Chain.antt =====
-- One list of Shkv: what the loops over data[i] do with it.
use gnu_my_server_gso_c.Base.{ℕ, zero, suc, List, [], ◌∷◌, Option, none, some, if◌then◌else◌}
use gnu_my_server_gso_c.HashMap.Types.{Key, Shkv}

module _ {ℓ} {K V : Type ℓ} ⦃key : Key K⦄ where
  -- The value under the iterator at which the search stops, `none` at the end.
  unfoldable pub find : K → List (Shkv K V) → Option V
  find k [] = none
  find k (e ∷ es) = if key.eq e.key k then some e.value else find k es

  -- `dataIter->value = value`
  unfoldable pub assign : K → V → List (Shkv K V) → List (Shkv K V)
  assign k v [] = []
  assign k v (e ∷ es) = if key.eq e.key k then record e { value = v } ∷ es else e ∷ assign k v es

  -- `erase (dataIter)`
  unfoldable pub erase : K → List (Shkv K V) → List (Shkv K V)
  erase k [] = []
  erase k (e ∷ es) = if key.eq e.key k then es else e ∷ erase k es

-- `list::erase` at a position.
unfoldable pub erase_at {ℓ} : {A : Type ℓ} → ℕ → List A → List A
erase_at i [] = []
erase_at zero (e ∷ es) = es
erase_at (suc i) (e ∷ es) = e ∷ erase_at i es
