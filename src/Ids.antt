-- ===== src/Ids.antt =====
-- graphrun/src/ids.rs. The branded 16-byte ids and the branded 64-bit counters are numbers; ids are
-- compared as their bytes are, which is the order of the big-endian numbers.
use graphrun.Prelude.{
  ℕ, ◌+◌, ◌≡◌, ◌↔◌, String, Bool, true, false, ◌&&◌, Eq, ◌==◌, nat_eq, string_eq, arith, min,
  u64_max,
}
use text.Mathlib.TextEquality.{eq_iff}

-- `LeaseRevision::next`, `OwnerGeneration::next`.
abbrev pub next : ℕ → ℕ
next n = min (n + 1) u64_max

pub data ExecutionRole : Type 0 where
  forward compensation reconciliation : ExecutionRole

abbrev pub role_beq : ExecutionRole → ExecutionRole → Bool
role_beq forward forward = true
role_beq compensation compensation = true
role_beq reconciliation reconciliation = true
role_beq _ _ = false

pub role_beq_iff : (a b : ExecutionRole) → (role_beq a b ≡ true) ↔ (a ≡ b)
role_beq_iff a b = ground arith

instance abbrev pub role_eq : Eq ExecutionRole
role_eq = record { beq = role_beq; beq_iff = role_beq_iff }

pub record ActivityKey : Type 0 where
  pub name : String
  pub version : ℕ

abbrev pub activity_key_beq : ActivityKey → ActivityKey → Bool
activity_key_beq a b = a.name == b.name && a.version == b.version

pub activity_key_beq_iff : (a b : ActivityKey) → (activity_key_beq a b ≡ true) ↔ (a ≡ b)
activity_key_beq_iff a b =
    ((λ h. ground (arith, eq_iff a.name b.name)), (λ h. ground (arith, eq_iff a.name b.name)))

instance abbrev pub activity_key_eq : Eq ActivityKey
activity_key_eq = record { beq = activity_key_beq; beq_iff = activity_key_beq_iff }

-- `ActivityKey::new`.
abbrev pub activity_key : String → ℕ → ActivityKey
activity_key name version = record { name = name; version = version }
