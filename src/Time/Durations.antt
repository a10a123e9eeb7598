-- ===== src/Time/Durations.antt =====
-- What `parse_duration` and `duration_to_millis` of graphrun/src/time.rs accept.
use graphrun.Prelude.{
  ℕ, ◌*◌, ◌≤◌, ◌<◌, ◌≡◌, refl, true, List, [], ◌∷◌, ◌++◌, ◌==◌, nat_eq, ltb, leb, arith,
  if◌then◌else◌, All, u64_max,
}
use graphrun.Error.{Result, ok, invalid, ◌>>=◌}
use graphrun.Time.{
  is_digit, split_digits, digits_value, parse_u64, of_unit, parse_split, parse_duration,
  duration_to_millis,
}

-- The units, and the milliseconds in each.
pub data DurationUnit : Type 0 where
  millis secs minutes hours days : DurationUnit

abbrev pub text_of : DurationUnit → List ℕ
text_of millis = b'm' ∷ b's' ∷ []
text_of secs = b's' ∷ []
text_of minutes = b'm' ∷ []
text_of hours = b'h' ∷ []
text_of days = b'd' ∷ []

abbrev pub millis_in : DurationUnit → ℕ
millis_in millis = 1
millis_in secs = 1000
millis_in minutes = 60000
millis_in hours = 3600000
millis_in days = 86400000

split_digits-append :
    (ds : List ℕ) (u : DurationUnit)
    → All (λ b. is_digit b ≡ true) ds
    → split_digits (ds ++ text_of u) ≡ (ds, text_of u)
unfolding split_digits
split_digits-append [] millis h = refl
split_digits-append [] secs h = refl
split_digits-append [] minutes h = refl
split_digits-append [] hours h = refl
split_digits-append [] days h = refl
split_digits-append (b ∷ bs) u h = rw (split_digits-append bs u h.1, h.0) refl

-- The milliseconds of `n` units, by way of the `Duration` that the source builds.
stored : ℕ → DurationUnit → Result ℕ
unfolding duration_to_millis of_unit
stored n u = do dur ← of_unit n (text_of u); duration_to_millis dur

abbrev in_range : ℕ → Result ℕ
in_range ms = if ltb u64_max ms then invalid "duration is out of range" else ok ms

stored_exact :
    (n : ℕ) (u : DurationUnit) → 0 < n → n ≤ u64_max → stored n u ≡ in_range (n * millis_in u)
unfolding stored
stored_exact n millis p q = ground arith
stored_exact n secs p q = ground arith
stored_exact n minutes p q = ground arith
stored_exact n hours p q = ground arith
stored_exact n days p q = ground arith

parse_split-stored :
    (b : ℕ) (bs : List ℕ) (u : DurationUnit)
    → (do dur ← parse_split (b ∷ bs) (text_of u); duration_to_millis dur) ≡ (
        if leb (digits_value 0 (b ∷ bs)) u64_max
        then (if digits_value 0 (b ∷ bs) == 0
            then invalid "duration {text} must be positive"
            else stored (digits_value 0 (b ∷ bs)) u)
        else invalid "duration {text} is not a positive integer")
unfolding parse_split parse_u64 stored
parse_split-stored b bs millis = ground arith
parse_split-stored b bs secs = ground arith
parse_split-stored b bs minutes = ground arith
parse_split-stored b bs hours = ground arith
parse_split-stored b bs days = ground arith

-- A text of at least one digit and a unit, naming a positive number that fits a 64-bit word, is
-- read and stored as exactly that number of units in milliseconds; where this does not fit a
-- 64-bit word the call fails, so the saturating products inside never change a duration silently.
pub parse_duration_exact :
    (b : ℕ) (bs : List ℕ) (u : DurationUnit)
    → All (λ c. is_digit c ≡ true) (b ∷ bs)
    → 0 < digits_value 0 (b ∷ bs)
    → digits_value 0 (b ∷ bs) ≤ u64_max
    → (do dur ← parse_duration (b ∷ bs ++ text_of u); duration_to_millis dur) ≡ (
        if ltb u64_max (digits_value 0 (b ∷ bs) * millis_in u)
        then invalid "duration is out of range"
        else ok (digits_value 0 (b ∷ bs) * millis_in u))
unfolding parse_duration
parse_duration_exact b bs u h p q =
    rw (split_digits-append (b ∷ bs) u h)
      (ground (arith, parse_split-stored b bs u, stored_exact (digits_value 0 (b ∷ bs)) u))
