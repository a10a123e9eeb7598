-- ===== src/Time.antt =====
-- graphrun/src/time.rs: duration texts, and the test that compares two clock samples. Texts are
-- lists of bytes; a `Duration` is its number of nanoseconds.
pub mod Durations
use graphrun.Prelude.{
  ℕ, zero, suc, ◌+◌, ◌-◌, ◌*◌, ◌/◌, ◌≤◌, ◌<◌, ◌≡◌, Bool, true, false, ◌&&◌, ◌||◌, Option, none,
  some, List, [], ◌∷◌, ◌==◌, nat_eq, ltb, leb, if◌then◌else◌, saturating_mul, u64_max,
}
use graphrun.Error.{Result, ok, err, panic, invalid, ◌>>=◌}

pub data ClockDeltaFault : Type 0 where
  boot_reversed : ClockDeltaFault
  watchdog_gap : ℕ → ClockDeltaFault
  wall_boot_skew : ℕ → ℕ → ClockDeltaFault

-- |a - b| of the 128-bit difference.
abbrev pub abs_diff : ℕ → ℕ → ℕ
abs_diff a b = if leb b a then a - b else b - a

unfoldable pub clock_delta_fault : ℕ → ℕ → ℕ → ℕ → Option ClockDeltaFault
clock_delta_fault previous_wall previous_boot wall boot =
    let elapsed = boot - previous_boot in
    let difference = abs_diff wall (previous_wall + elapsed) in
    if ltb boot previous_boot
    then some boot_reversed
    else if ltb 2000 elapsed
    then some (watchdog_gap elapsed)
    else if ltb (250 + elapsed / 1000) difference
    then some (wall_boot_skew difference elapsed)
    else none

-- `Duration::from_millis`, `Duration::from_secs` and `as_millis`.
abbrev pub from_millis : ℕ → ℕ
from_millis n = n * 1000000

abbrev pub from_secs : ℕ → ℕ
from_secs n = n * 1000000000

abbrev pub as_millis : ℕ → ℕ
as_millis d = d / 1000000

abbrev pub is_digit : ℕ → Bool
is_digit b = leb b'0' b && leb b b'9'

-- The digits in front of the first byte that is none, and that byte with the rest.
unfoldable pub split_digits : List ℕ → List ℕ × List ℕ
split_digits [] = ([], [])
split_digits (b ∷ bs) =
    let (ds, unit) = split_digits bs in if is_digit b then (b ∷ ds, unit) else ([], b ∷ bs)

-- The number that a text of digits names; `parse::<u64>` refuses one above the largest word.
unfoldable pub digits_value : ℕ → List ℕ → ℕ
digits_value acc [] = acc
digits_value acc (d ∷ ds) = digits_value (acc * 10 + (d - b'0')) ds

unfoldable pub parse_u64 : List ℕ → Option ℕ
unfolding digits_value
parse_u64 ds = let n = digits_value 0 ds in if leb n u64_max then some n else none

unfoldable pub of_unit : ℕ → List ℕ → Result ℕ
of_unit n (m ∷ s ∷ []) =
    if m == b'm' && s == b's' then ok (from_millis n) else invalid "unknown duration unit {unit}"
of_unit n (u ∷ []) =
    if u == b's'
    then ok (from_secs n)
    else if u == b'm'
    then ok (from_secs (saturating_mul n 60))
    else if u == b'h'
    then ok (from_secs (saturating_mul n 3600))
    else if u == b'd'
    then ok (from_secs (saturating_mul n 86400))
    else invalid "unknown duration unit {unit}"
of_unit n _ = invalid "unknown duration unit {unit}"

unfoldable pub positive_of_unit : Option ℕ → List ℕ → Result ℕ
unfolding of_unit
positive_of_unit none unit = invalid "duration {text} is not a positive integer"
positive_of_unit (some n) unit =
    if n == 0 then invalid "duration {text} must be positive" else of_unit n unit

unfoldable pub parse_split : List ℕ → List ℕ → Result ℕ
unfolding positive_of_unit
parse_split ds [] = invalid "duration {text} is missing a unit"
parse_split [] (u ∷ us) = invalid "duration {text} has no integer"
parse_split (d ∷ ds) (u ∷ us) = positive_of_unit (parse_u64 (d ∷ ds)) (u ∷ us)

unfoldable pub parse_duration : List ℕ → Result ℕ
unfolding split_digits parse_u64 parse_split
parse_duration text = let (ds, unit) = split_digits text in parse_split ds unit

unfoldable pub duration_to_millis : ℕ → Result ℕ
duration_to_millis d =
    let ms = as_millis d in
    if ms == 0 || ltb u64_max ms then invalid "duration is out of range" else ok ms
