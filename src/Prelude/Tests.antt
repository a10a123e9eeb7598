-- ===== src/Prelude/Tests.antt =====
-- Boolean tests, equality as an interface, and the conditional.
use Prim.Native.Nat.{ℕ, ◌≤◌, ◌<◌, compare, Ordering}
use Prim.Native.String.{String}
use Prim.Native.Char.{code}
use mathlib.Core.Path.{◌≡◌, refl}
use mathlib.Core.Logic.{◌↔◌, ◌⊎◌, inl, inr}
use mathlib.Core.Bool.{Bool, true, false}
use mathlib.Core.Option.{Option, none, some}
use native.Mathlib.Omega.{arith}
use text.Mathlib.Text.{◌==◌ as str_eq}
use text.Mathlib.TextEquality.{eq_iff}

abbrev pub ltb : ℕ → ℕ → Bool
ltb a b = elim (compare a b) [ Ordering.lt ↦ true | _ ↦ false ]

abbrev pub leb : ℕ → ℕ → Bool
leb a b = elim (compare a b) [ Ordering.gt ↦ false | _ ↦ true ]

abbrev pub nat_beq : ℕ → ℕ → Bool
nat_beq a b = elim (compare a b) [ Ordering.eq ↦ true | _ ↦ false ]

pub nat_beq_iff : (a b : ℕ) → (nat_beq a b ≡ true) ↔ (a ≡ b)
nat_beq_iff a b = ground arith

-- `PartialEq` of the source, for the types whose equality it derives.
-- The test decides which values are the same.
pub record Eq {κ} (T : Type κ) : Type κ where
  pub beq : (left right : T) → Bool
  pub beq_iff : (left right : T) → (beq left right ≡ true) ↔ (left ≡ right)

-- The derived `eq` of whichever type.
infix 50 ◌==◌
abbrev pub ◌==◌ {κ} : {T : Type κ} ⦃derived : Eq T⦄ (left right : T) → Bool
◌==◌ ⦃derived⦄ left right = derived.beq left right

instance abbrev pub nat_eq : Eq ℕ
nat_eq = record { beq = nat_beq; beq_iff = nat_beq_iff }

instance abbrev pub string_eq : Eq String
string_eq = record { beq = str_eq; beq_iff = eq_iff }

unfoldable pub option_beq {ℓ} : {A : Type ℓ} ⦃e : Eq A⦄ → Option A → Option A → Bool
option_beq none none = true
option_beq none (some b) = false
option_beq (some a) none = false
option_beq (some a) (some b) = a == b

pub option_beq_iff {ℓ} :
    {A : Type ℓ} ⦃e : Eq A⦄ (a b : Option A) → (option_beq a b ≡ true) ↔ (a ≡ b)
unfolding option_beq
option_beq_iff none none = ((λ h. refl), (λ h. refl))
option_beq_iff none (some b) = ((λ h. cc), (λ h. cc))
option_beq_iff (some a) none = ((λ h. cc), (λ h. cc))
option_beq_iff ⦃e⦄ (some a) (some b) =
    ((λ h. cc ((e.beq_iff a b).0 h)), (λ h. (e.beq_iff a b).1 (cc h)))

instance abbrev pub option_eq {ℓ} : {A : Type ℓ} ⦃e : Eq A⦄ → Eq (Option A)
unfolding option_beq
option_eq = record { beq = option_beq; beq_iff = option_beq_iff }

infix 1 if◌then◌else◌
abbrev pub if◌then◌else◌ {ℓ} : {A : Type ℓ} → Bool → A → A → A
if true then x else y = x
if false then x else y = y

pub ltb→lt : (a b : ℕ) → ltb a b ≡ true → a < b
ltb→lt a b h = ground arith

pub lt→ltb : (a b : ℕ) → a < b → ltb a b ≡ true
lt→ltb a b h = ground arith

pub leb→le : (a b : ℕ) → leb a b ≡ true → a ≤ b
leb→le a b h = ground arith

-- A split on a computed value that keeps the equation.
pub Bool-cases : (b : Bool) → (b ≡ true) ⊎ (b ≡ false)
Bool-cases true = inl refl
Bool-cases false = inr refl

pub Option-cases {ℓ} : {A : Type ℓ} (o : Option A) → (o ≡ none) ⊎ ((a : A) × (o ≡ some a))
Option-cases none = inl refl
Option-cases (some a) = inr (a, refl)

abbrev pub is_some {ℓ} : {A : Type ℓ} → Option A → Bool
is_some none = false
is_some (some a) = true

-- `Option::is_some_and`.
abbrev pub is_some_and {ℓ} : {A : Type ℓ} → Option A → (A → Bool) → Bool
is_some_and none p = false
is_some_and (some a) p = p a

pub ==_refl {ℓ} : {A : Type ℓ} ⦃e : Eq A⦄ (a : A) → (a == a) ≡ true
==_refl ⦃e⦄ a = (e.beq_iff a a).1 refl

-- Two texts joined.
abbrev pub join_text : String → String → String
join_text String.[] t = t
join_text (String.◌∷◌ c s) t = String.◌∷◌ c (join_text s t)

-- `starts_with(prefix)`.
unfoldable pub starts_with : String → String → Bool
starts_with s String.[] = true
starts_with String.[] (String.◌∷◌ c prefix) = false
starts_with (String.◌∷◌ d s) (String.◌∷◌ c prefix) =
    if nat_beq (code d) (code c) then starts_with s prefix else false

pub starts_with-join_text : (prefix s : String) → starts_with (join_text prefix s) prefix ≡ true
unfolding starts_with
starts_with-join_text String.[] s = refl
starts_with-join_text (String.◌∷◌ c prefix) s =
    rw ((nat_beq_iff (code c) (code c)).1 refl) (starts_with-join_text prefix s)
