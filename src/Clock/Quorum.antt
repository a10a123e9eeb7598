-- ===== src/Clock/Quorum.antt =====
-- graphrun/src/clock.rs: `joint_quorum`.
use graphrun.Prelude.{
  ℕ, ◌+◌, ◌/◌, ◌≤◌, ◌<◌, ◌≡◌, Bool, true, false, ◌&&◌, not, List, [], ◌∷◌, nat_eq, ltb, arith,
  length, filter, all, contains, Bool-cases, inl, inr, get_elem?, some, zero, suc,
}

abbrev is_empty : List ℕ → Bool
is_empty [] = true
is_empty (x ∷ xs) = false

abbrev majority : List ℕ → List ℕ → Bool
majority healthy voters =
    not (is_empty voters) && ltb (length voters / 2) (length (filter (contains healthy) voters))

abbrev no_config : List (List ℕ) → Bool
no_config [] = true
no_config (c ∷ cs) = false

-- Each set is a list without repetitions.
unfoldable pub joint_quorum : List (List ℕ) → List ℕ → Bool
joint_quorum configs healthy = not (no_config configs) && all (majority healthy) configs

-- The members that both sets hold are as many as the two counts exceed the voters by.
overlap :
    (a b voters : List ℕ)
    → length (filter (contains a) voters) + length (filter (contains b) voters)
      ≤ length voters + length (filter (λ v. contains a v && contains b v) voters)
unfolding filter
overlap a b [] = omega arith
overlap a b (v ∷ voters) = ground (arith, overlap a b voters)

-- A member of the set that both sets hold.
abbrev Shared : List ℕ → List ℕ → List ℕ → Type 0
Shared a b voters =
    (v : ℕ) × (contains voters v ≡ true) × (contains a v ≡ true) × (contains b v ≡ true)

later : (a b : List ℕ) (v : ℕ) (voters : List ℕ) → Shared a b voters → Shared a b (v ∷ voters)
unfolding contains
later a b v voters (w, p, q, r) = (w, ground arith, q, r)

shared_of_count :
    (a b voters : List ℕ)
    → 0 < length (filter (λ v. contains a v && contains b v) voters)
    → Shared a b voters
unfolding filter
shared_of_count a b [] h = elim h [ ]
shared_of_count a b (v ∷ voters) h = elim (Bool-cases (contains a v && contains b v)) [
  | inl both ↦ (v, (unfold contains in ground arith), ground arith, ground arith)
  | inr not_both ↦ later a b v voters (shared_of_count a b voters (rw (not_both, filter) at h))
]

majorities_meet :
    (a b voters : List ℕ) → majority a voters ≡ true → majority b voters ≡ true → Shared a b voters
majorities_meet a b voters p q = shared_of_count a b voters (ground (arith, overlap a b voters))

all-get_elem? :
    (p : List ℕ → Bool) (configs : List (List ℕ)) (i : ℕ) {config : List ℕ}
    → all p configs ≡ true
    → get_elem? configs i ≡ some config
    → p config ≡ true
unfolding all
all-get_elem? p [] i h e = cc
all-get_elem? p (c ∷ cs) zero h e = ground arith
all-get_elem? p (c ∷ cs) (suc i) h e = all-get_elem? p cs i (ground arith) e

-- Two sets of healthy members that are joint quorums of the same configurations have a voter of
-- each configuration in common, so they are never disjoint.
pub joint_quorum_intersects :
    (configs : List (List ℕ)) (a b : List ℕ) (i : ℕ) (config : List ℕ)
    → joint_quorum configs a ≡ true
    → joint_quorum configs b ≡ true
    → get_elem? configs i ≡ some config
    → (v : ℕ) × (contains config v ≡ true) × (contains a v ≡ true) × (contains b v ≡ true)
unfolding joint_quorum
joint_quorum_intersects configs a b i config p q e =
    majorities_meet a b config (all-get_elem? (majority a) configs i (ground arith) e)
      (all-get_elem? (majority b) configs i (ground arith) e)
