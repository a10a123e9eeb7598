-- ===== src/Value/Pointer.antt =====
-- graphrun/src/value.rs: `Value::pointer` and `unescape_pointer`.
use Prim.Native.Char.{Char, code}
use graphrun.Prelude.{
  ℕ, zero, suc, ◌+◌, ◌-◌, ◌*◌, ◌≡◌, refl, String, true, false, ◌&&◌, Option, none, some, List, [],
  ◌∷◌, ◌==◌, nat_eq, string_eq, leb, if◌then◌else◌, u64_max, Option-cases, Bool-cases, inl, inr, ap,
  nat_beq_iff,
}
use text.Mathlib.TextEquality.{Char-path}
use graphrun.Error.{Result, ok, invalid, ◌>>=◌, or_fail, invalid_argument}
use graphrun.Value.{Value, Values, Fields}

-- `replace("~d", c)`, where `d` has the code `digit`.
unfoldable pub replace : ℕ → Char → String → String
replace digit c String.[] = String.[]
replace digit c (String.◌∷◌ x String.[]) = String.◌∷◌ x String.[]
replace digit c (String.◌∷◌ x (String.◌∷◌ y s)) =
    let both = replace digit c s in
    let one = replace digit c (String.◌∷◌ y s) in
    if code x == b'~' && code y == digit then String.◌∷◌ c both else String.◌∷◌ x one

unfoldable pub unescape_pointer : String → String
unfolding replace
unescape_pointer token = replace b'0' "~" (replace b'1' "/" token)

-- The escape of RFC 6901, which writers of pointers use.
unfoldable pub escape : String → String
escape String.[] = String.[]
escape (String.◌∷◌ x s) =
    let rest = escape s in
    if code x == b'~'
    then String.◌∷◌ "~" (String.◌∷◌ "0" rest)
    else if code x == b'/'
    then String.◌∷◌ "~" (String.◌∷◌ "1" rest)
    else String.◌∷◌ x rest

-- With the slashes written back, and the tildes not yet.
half_escaped : String → String
half_escaped String.[] = String.[]
half_escaped (String.◌∷◌ x s) =
    let rest = half_escaped s in
    if code x == b'~' then String.◌∷◌ "~" (String.◌∷◌ "0" rest) else String.◌∷◌ x rest

replace_other :
    (digit : ℕ) (c x : Char) (s : String)
    → (code x == b'~') ≡ false
    → replace digit c (String.◌∷◌ x s) ≡ String.◌∷◌ x (replace digit c s)
unfolding replace
replace_other digit c x String.[] h = refl
replace_other digit c x (String.◌∷◌ y s) h = rw (h, replace) refl

replace_tilde :
    (digit : ℕ) (c x y : Char) (s : String)
    → (code x == b'~') ≡ true
    → (code y == b'~') ≡ false
    → replace digit c (String.◌∷◌ x (String.◌∷◌ y s)) ≡ (
        if code y == digit
        then String.◌∷◌ c (replace digit c s)
        else String.◌∷◌ x (String.◌∷◌ y (replace digit c s)))
replace_tilde digit c x y s h k =
    let other = replace_other digit c y s k in
    unfold replace in
    (rw (h, replace)
      (elim (Bool-cases (code y == digit)) [
        | inl e ↦ rw e refl
        | inr e ↦ rw e (ap (String.◌∷◌ x) other)
      ]))

replace-escape : (s : String) → replace b'1' "/" (escape s) ≡ half_escaped s
unfolding escape half_escaped
replace-escape String.[] = unfold replace in refl
replace-escape (String.◌∷◌ x s) = elim (Bool-cases (code x == b'~')) [
  | inl tilde ↦
      rw (tilde, escape, half_escaped)
        (cc (replace_tilde b'1' "/" "~" "0" (escape s) refl refl, replace-escape s))
  | inr other ↦ elim (Bool-cases (code x == b'/')) [
    | inl slash ↦
        rw (other, slash, escape, half_escaped)
          (cc (
            replace_tilde b'1' "/" "~" "1" (escape s) refl refl,
            replace-escape s,
            Char-path x "/" ((nat_beq_iff (code x) b'/').0 slash),
          ))
    | inr plain ↦
        rw (other, plain, escape, half_escaped)
          (cc (replace_other b'1' "/" x (escape s) other, replace-escape s))
  ]
]

replace-half_escaped : (s : String) → replace b'0' "~" (half_escaped s) ≡ s
unfolding half_escaped
replace-half_escaped String.[] = unfold replace in refl
replace-half_escaped (String.◌∷◌ x s) = elim (Bool-cases (code x == b'~')) [
  | inl tilde ↦
      rw (tilde, half_escaped)
        (cc (
          replace_tilde b'0' "~" "~" "0" (half_escaped s) refl refl,
          replace-half_escaped s,
          Char-path x "~" ((nat_beq_iff (code x) b'~').0 tilde),
        ))
  | inr other ↦
      rw (other, half_escaped)
        (cc (replace_other b'0' "~" x (half_escaped s) other, replace-half_escaped s))
]

-- Escaping a key and unescaping it gives the key back, whatever tildes and slashes it holds.
pub unescape_pointer-escape : (s : String) → unescape_pointer (escape s) ≡ s
unfolding unescape_pointer
unescape_pointer-escape s = rw (replace-escape s) (replace-half_escaped s)

-- `split('/')`: the pieces between slashes, at least one.
unfoldable pub split_slash : String → List String
split_slash String.[] = String.[] ∷ []
split_slash (String.◌∷◌ c s) = elim (split_slash s) [
  | [] ↦ []
  | p ∷ ps ↦ if code c == b'/' then String.[] ∷ p ∷ ps else String.◌∷◌ c p ∷ ps
]

unfoldable pub number_of : ℕ → String → Option ℕ
number_of acc String.[] = if leb acc u64_max then some acc else none
number_of acc (String.◌∷◌ c s) =
    let rest = number_of (acc * 10 + (code c - b'0')) s in
    if leb b'0' (code c) && leb (code c) b'9' then rest else none

-- `parse::<usize>()`: digits, at least one, after an optional plus sign.
unfoldable pub parse_usize : String → Option ℕ
unfolding number_of
parse_usize String.[] = none
parse_usize (String.◌∷◌ c String.[]) = number_of 0 (String.◌∷◌ c String.[])
parse_usize (String.◌∷◌ c (String.◌∷◌ d s)) =
    if code c == b'+'
    then number_of 0 (String.◌∷◌ d s)
    else number_of 0 (String.◌∷◌ c (String.◌∷◌ d s))

unfoldable pub get_field : String → Fields → Option Value
get_field k Fields.end = none
get_field k (Fields.field j v fs) = if j == k then some v else get_field k fs

unfoldable pub get_item : ℕ → Values → Option Value
get_item i Values.nil = none
get_item zero (Values.cons v vs) = some v
get_item (suc i) (Values.cons v vs) = get_item i vs

-- One token of a pointer.
unfoldable pub project : Value → String → Result Value
unfolding parse_usize get_field get_item
project (Value.object fields) token =
    or_fail (get_field token fields) invalid_argument "missing object field {token} at {path}"
project (Value.array items) token = do
  index ← or_fail (parse_usize token) invalid_argument "array index {token} is not an integer"
  or_fail (get_item index items) invalid_argument "array index {index} is out of range"
project v token = invalid "cannot project {token} through a scalar"

unfoldable pub walk : Value → List String → Result Value
unfolding project unescape_pointer
walk v [] = ok v
walk v (raw ∷ rest) = do w ← project v (unescape_pointer raw); walk w rest

abbrev skip_one : List String → List String
skip_one [] = []
skip_one (p ∷ ps) = ps

unfoldable pub pointer : Value → String → Result Value
unfolding walk split_slash
pointer v String.[] = ok v
pointer v (String.◌∷◌ c s) =
    if code c == b'/'
    then walk v (skip_one (split_slash (String.◌∷◌ c s)))
    else invalid "JSON Pointer {path} must start with /"

-- No slash is left in an escaped key, so the key is one token.
split_slash-escape : (s : String) → split_slash (escape s) ≡ escape s ∷ []
unfolding split_slash escape
split_slash-escape String.[] = refl
split_slash-escape (String.◌∷◌ x s) = elim (Bool-cases (code x == b'~')) [
  | inl tilde ↦ rw (tilde, escape) (rw (split_slash-escape s) refl)
  | inr other ↦ elim (Bool-cases (code x == b'/')) [
    | inl slash ↦ rw (other, slash, escape) (rw (split_slash-escape s) refl)
    | inr plain ↦ rw (other, plain, escape) (rw (split_slash-escape s) (rw plain refl))
  ]
]

-- The pointer that names a field by its escaped key finds that field of an object, or fails if the
-- object has none.
pub pointer_field :
    (k : String) (fields : Fields)
    → pointer (Value.object fields) (String.◌∷◌ "/" (escape k))
      ≡ or_fail (get_field k fields) invalid_argument "missing object field {token} at {path}"
unfolding pointer
pointer_field k fields =
    rw (split_slash-escape k, split_slash)
      (rw (unescape_pointer-escape k) (elim (Option-cases (get_field k fields)) [
        | inl missing ↦ rw missing refl
        | inr (v, found) ↦ rw found refl
      ]))
