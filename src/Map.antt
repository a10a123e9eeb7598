-- ===== src/Map.antt =====
-- `HashMap` and `BTreeMap` as association lists with distinct keys. The order of the entries of a
-- hash map is any order; whatever is proved holds for each.
pub mod Laws
use graphrun.Prelude.{
  ◌≡◌, Eq, ◌==◌, Bool, Option, none, some, List, [], ◌∷◌, map, if◌then◌else◌, is_some,
}

abbrev pub Map {ℓ κ} : Type ℓ → Type κ → Type (ℓ ⊔ κ)
Map K V = List (K × V)

module _ {ℓ κ} {K : Type ℓ} {V : Type κ} where
  -- `values()`.
  unfoldable pub values : Map K V → List V
  values [] = []
  values ((j, v) ∷ m) = v ∷ values m

  -- `keys()`.
  unfoldable pub keys : Map K V → List K
  keys [] = []
  keys ((j, v) ∷ m) = j ∷ keys m

  -- A loop over `values_mut()`.
  unfoldable pub map_values : (V → V) → Map K V → Map K V
  map_values f [] = []
  map_values f ((j, v) ∷ m) = (j, f v) ∷ map_values f m

module _ {ℓ κ} {K : Type ℓ} {V : Type κ} ⦃e : Eq K⦄ where
  -- `get(&k)`.
  unfoldable pub get : K → Map K V → Option V
  get k [] = none
  get k ((j, v) ∷ m) = if j == k then some v else get k m

  -- `insert(k, v)`.
  unfoldable pub insert : K → V → Map K V → Map K V
  insert k v [] = (k, v) ∷ []
  insert k v ((j, w) ∷ m) = if j == k then (j, v) ∷ m else (j, w) ∷ insert k v m

  -- `if let Some(v) = get_mut(&k) { … }`.
  unfoldable pub modify : K → (V → V) → Map K V → Map K V
  modify k f [] = []
  modify k f ((j, v) ∷ m) = if j == k then (j, f v) ∷ m else (j, v) ∷ modify k f m

  -- `contains_key(&k)`.
  unfoldable pub contains_key : K → Map K V → Bool
  unfolding get
  contains_key k m = is_some (get k m)
