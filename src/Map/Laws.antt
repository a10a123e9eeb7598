-- ===== src/Map/Laws.antt =====
-- What `get` sees after each update of a map.
use mathlib.Core.Path.{subst}
use graphrun.Prelude.{
  ◌≡◌, refl, Eq, ◌==◌, Bool, true, false, Option, none, some, [], ◌∷◌, arith, if◌then◌else◌, ◌≢◌,
  All, Bool-cases, inl, inr,
}
use graphrun.Map.{Map, get, insert, modify, map_values, values}

abbrev pub map_option {ℓ κ} : {A : Type ℓ} {B : Type κ} → (A → B) → Option A → Option B
map_option f none = none
map_option f (some a) = some (f a)

module _ {ℓ κ} {K : Type ℓ} {V : Type κ} ⦃e : Eq K⦄ where
  pub get-insert :
      (k j : K) (v : V) (m : Map K V) → get j (insert k v m) ≡ (if k == j then some v else get j m)
  unfolding get insert
  get-insert k j v [] = refl
  get-insert k j v ((i, w) ∷ m) =
      ground (arith, e.beq_iff i k, e.beq_iff i j, e.beq_iff k j, get-insert k j v m)

  pub get-modify :
      (k j : K) (f : V → V) (m : Map K V)
      → get j (modify k f m) ≡ (if k == j then map_option f (get j m) else get j m)
  unfolding get modify
  get-modify k j f [] = ground arith
  get-modify k j f ((i, w) ∷ m) =
      ground (arith, e.beq_iff i k, e.beq_iff i j, e.beq_iff k j, get-modify k j f m)

  pub get-map_values :
      (j : K) (f : V → V) (m : Map K V) → get j (map_values f m) ≡ map_option f (get j m)
  unfolding get map_values
  get-map_values j f [] = refl
  get-map_values j f ((i, w) ∷ m) = ground (arith, get-map_values j f m)

  pub get-insert_self : (k : K) (v : V) (m : Map K V) → get k (insert k v m) ≡ some v
  get-insert_self k v m = ground (arith, get-insert k k v m, e.beq_iff k k)

  pub get-insert_ne : (k j : K) (v : V) (m : Map K V) → k ≢ j → get j (insert k v m) ≡ get j m
  get-insert_ne k j v m h = ground (arith, get-insert k j v m, e.beq_iff k j)

  -- A property of every stored value holds of what `get` returns.
  pub All-get {μ} :
      (P : V → Type μ) (k : K) (m : Map K V) {v : V} → All P (values m) → get k m ≡ some v → P v
  unfolding get values
  All-get P k [] h g = cc
  All-get P k ((i, w) ∷ m) {v} h g = from (i == k) (All-get P k m h.1) g
    where
      from : (b : Bool) → (get k m ≡ some v → P v) → (if b then some w else get k m) ≡ some v → P v
      from true later p = let same : w ≡ v = cc in subst P same h.0
      from false later p = later p

  pub All-insert {μ} :
      (P : V → Type μ) (k : K) (v : V) (m : Map K V)
      → P v
      → All P (values m)
      → All P (values (insert k v m))
  unfolding insert values
  All-insert P k v [] p h = (p, tt)
  All-insert P k v ((i, w) ∷ m) p h = elim (Bool-cases (i == k)) [
    | inl hit ↦ rw (hit, insert) (p, h.1)
    | inr miss ↦ rw (miss, insert) (h.0, All-insert P k v m p h.1)
  ]

  pub All-modify {μ} :
      (P : V → Type μ) (k : K) (f : V → V) (m : Map K V)
      → ((v : V) → P v → P (f v))
      → All P (values m)
      → All P (values (modify k f m))
  unfolding modify values
  All-modify P k f [] keep h = tt
  All-modify P k f ((i, w) ∷ m) keep h = elim (Bool-cases (i == k)) [
    | inl hit ↦ rw (hit, modify) (keep w h.0, h.1)
    | inr miss ↦ rw (miss, modify) (h.0, All-modify P k f m keep h.1)
  ]

  pub All-map_values {μ} :
      (P : V → Type μ) (f : V → V) (m : Map K V)
      → ((v : V) → P v → P (f v))
      → All P (values m)
      → All P (values (map_values f m))
  unfolding map_values values
  All-map_values P f [] keep h = tt
  All-map_values P f ((i, w) ∷ m) keep h = (keep w h.0, All-map_values P f m keep h.1)

pub ruleset map_laws = (get-insert, get-modify, get-map_values)
