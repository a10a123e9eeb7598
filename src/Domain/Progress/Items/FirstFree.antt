-- ===== src/Domain/Progress/Items/FirstFree.antt =====
-- graphrun/src/domain.rs: the search of `progress_foreach` for the next index ends.
use graphrun.Prelude.{
  ℕ, zero, suc, ◌+◌, ◌≤◌, ◌<◌, ◌≡◌, refl, sym, ap, ◌∙◌, Bool, true, false, not, ◌||◌, List, [], ◌∷◌,
  ◌++◌, map, ◌==◌, nat_eq, nat_beq_iff, arith, contains, filter, any, length, length-filter-le,
  length-append, ◌&&◌, Bool-cases, inl, inr,
}
use mathlib.Core.Path.{subst}
use graphrun.Value.{Value}
use graphrun.Domain.State.{ScopeState}
use graphrun.Domain.Progress.Items.{foreach_has, in_use, first_free, next_index_of, taken_of}

abbrev without : ℕ → List ℕ → List ℕ
without i xs = filter (λ x. not (x == i)) xs

without-shorter : (i : ℕ) (xs : List ℕ) → contains xs i ≡ true → length (without i xs) < length xs
unfolding contains filter
without-shorter i [] h = cc h
without-shorter i (x ∷ xs) h =
    ground (arith, length-filter-le (λ x. not (x == i)) xs, without-shorter i xs)

contains-without :
    (i j : ℕ) (xs : List ℕ) → i < j → contains xs j ≡ true → contains (without i xs) j ≡ true
unfolding contains filter
contains-without i j [] h c = cc c
contains-without i j (x ∷ xs) h c = ground (arith, contains-without i j xs h)

contains-append :
    (xs ys : List ℕ) (j : ℕ) → contains (xs ++ ys) j ≡ (contains xs j || contains ys j)
unfolding contains
contains-append [] ys j = refl
contains-append (x ∷ xs) ys j = ground (arith, contains-append xs ys j)

contains-done :
    (done : List (ℕ × Value)) (j : ℕ) → contains (map (λ item. item.0) done) j ≡ foreach_has done j
unfolding contains foreach_has any
contains-done [] j = refl
contains-done (item ∷ done) j = ground (arith, contains-done done j)

length-done : (done : List (ℕ × Value)) → length (map (λ item. item.0) done) ≡ length done
length-done [] = refl
length-done (item ∷ done) = ap suc (length-done done)

module _ (taken : List ℕ) (done : List (ℕ × Value)) where
  search_on :
      (fuel i : ℕ)
      → in_use taken done i ≡ true
      → first_free (suc fuel) taken done i ≡ first_free fuel taken done (i + 1)
  unfolding first_free
  search_on fuel i used = rw (used, first_free) refl

  search_off : (fuel i : ℕ) → in_use taken done i ≡ false → first_free (suc fuel) taken done i ≡ i
  unfolding first_free
  search_off fuel i free = rw (free, first_free) refl

  -- Among more steps than there are indices, one meets an index that is not in use.
  enough :
      (fuel i : ℕ) (all : List ℕ)
      → ((j : ℕ) → i ≤ j → in_use taken done j ≡ true → contains all j ≡ true)
      → length all < fuel
      → in_use taken done (first_free fuel taken done i) ≡ false
  enough zero i all covers short = absurd (omega (arith, short))
  enough (suc fuel) i all covers short = elim (Bool-cases (in_use taken done i)) [
    | inr free ↦ subst (λ k. in_use taken done k ≡ false) (sym (search_off fuel i free)) free
    | inl used ↦
        let shorter = without-shorter i all (covers i (omega arith) used) in
        subst (λ k. in_use taken done k ≡ false) (sym (search_on fuel i used))
          (enough fuel (i + 1) (without i all)
            (λ j later k.
              contains-without i j all (omega (arith, later)) (covers j (omega (arith, later)) k))
            (omega (arith, shorter, short)))
  ]

  -- Every index that the search passes is in use.
  passed : (fuel i j : ℕ) → i ≤ j → j < first_free fuel taken done i → in_use taken done j ≡ true
  unfolding first_free
  passed zero i j h k = absurd (omega (arith, h, k))
  passed (suc fuel) i j h k = elim (Bool-cases (in_use taken done i)) [
    | inr free ↦ let same = search_off fuel i free in absurd (omega (arith, h, k, same))
    | inl used ↦ elim (Bool-cases (i == j)) [
      | inl here ↦
          let same : i ≡ j = (nat_beq_iff i j).0 here in
          subst (λ x. in_use taken done x ≡ true) same used
      | inr later ↦
          passed fuel (i + 1) j (ground (arith, h, later))
            (let same = search_on fuel i used in omega (arith, k, same))
    ]
  ]

-- Every index below a number is in use.
abbrev pub all_in_use : List ℕ → List (ℕ × Value) → ℕ → Bool
all_in_use taken done zero = true
all_in_use taken done (suc n) = in_use taken done n && all_in_use taken done n

-- The least index that no item has.
pub record IsFirstFree (taken : List ℕ) (done : List (ℕ × Value)) (index : ℕ) : Type 0 where
  pub free : in_use taken done index ≡ false
  pub least : all_in_use taken done index ≡ true

module _ (taken : List ℕ) (done : List (ℕ × Value)) where
  all_below :
      (n : ℕ) → ((j : ℕ) → j < n → in_use taken done j ≡ true) → all_in_use taken done n ≡ true
  all_below zero h = refl
  all_below (suc n) h =
      let here = h n (omega arith) in
      let rest = all_below n (λ j k. h j (omega (arith, k))) in rw (here, rest) refl

  covered :
      (j : ℕ) → in_use taken done j ≡ true → contains (taken ++ map (λ item. item.0) done) j ≡ true
  covered j h = contains-append taken (map (λ item. item.0) done) j ∙ (rw (contains-done done j) h)

  short_enough : length (taken ++ map (λ item. item.0) done) < suc (length taken + length done)
  short_enough = omega (arith, length-append taken (map (λ item. item.0) done), length-done done)

-- The search for the next index finds the least one that no item has: it takes enough steps.
pub next_index_of-IsFirstFree :
    (children : List ScopeState) (done : List (ℕ × Value))
    → IsFirstFree (taken_of children) done (next_index_of children done)
unfolding next_index_of
next_index_of-IsFirstFree children done =
    let taken = taken_of children in
    let fuel = suc (length taken + length done) in
    record {
      free =
          enough taken done fuel 0 (taken ++ map (λ item. item.0) done)
            (λ j h used. covered taken done j used) (short_enough taken done);
      least =
          all_below taken done (first_free fuel taken done 0)
            (λ j h. passed taken done fuel 0 j (omega arith) h);
    }
