-- ===== src/Value/Canonical.antt =====
-- graphrun/src/value.rs: `canonical_json`, over the package that writes a string as JSON text.
use graphrun.Prelude.{
  ℕ, zero, suc, ◌+◌, ◌/◌, ◌%◌, String, Bool, true, false, List, [], ◌∷◌, ◌++◌, ℤ, pos, negsuc, ltb,
  nat_eq, if◌then◌else◌,
}
use Prim.Native.Char.{code}
use graphrun.Error.{Result, ok, invalid, ◌>>=◌}
use graphrun.Value.{Json, JsonItems, JsonFields, max_data_depth}

-- The decimal digits of a number, by at most `fuel` of them; a word of 64 bits has at most twenty.
unfoldable pub decimal : ℕ → ℕ → List ℕ
decimal zero n = []
decimal (suc fuel) n =
    let rest = decimal fuel (n / 10) in
    if ltb n 10 then (b'0' + n) ∷ [] else rest ++ (b'0' + n % 10) ∷ []

-- `i64::to_string`.
unfoldable pub integer_text : ℤ → List ℕ
unfolding decimal
integer_text (pos n) = decimal 20 n
integer_text (negsuc n) = b'-' ∷ decimal 20 (n + 1)

-- The order of strings, by their characters.
unfoldable pub text_le : String → String → Bool
text_le String.[] t = true
text_le (String.◌∷◌ c s) String.[] = false
text_le (String.◌∷◌ c s) (String.◌∷◌ d t) =
    let rest = text_le s t in
    if ltb (code c) (code d) then true else if ltb (code d) (code c) then false else rest

abbrev guard_depth {ℓ} : {A : Type ℓ} → ℕ → Result A → Result A
guard_depth depth r =
    if ltb max_data_depth depth then invalid "canonical JSON exceeds maximum depth" else r

-- A member is put before the first one whose key is not below its own.
unfoldable pub put_sorted : String → List ℕ → List (String × List ℕ) → List (String × List ℕ)
put_sorted k t [] = (k, t) ∷ []
put_sorted k t ((j, u) ∷ ms) =
    if text_le k j then (k, t) ∷ (j, u) ∷ ms else (j, u) ∷ put_sorted k t ms

module _ (json_text : String → List ℕ) where
  unfoldable pub join_members : List (String × List ℕ) → List ℕ
  join_members [] = []
  join_members ((k, t) ∷ []) = json_text k ++ b':' ∷ t
  join_members ((k, t) ∷ m ∷ ms) = json_text k ++ (b':' ∷ t ++ b',' ∷ join_members (m ∷ ms))

  unfoldable pub join_items : List (List ℕ) → List ℕ
  join_items [] = []
  join_items (t ∷ []) = t
  join_items (t ∷ u ∷ ts) = t ++ b',' ∷ join_items (u ∷ ts)

  -- Members are written in the order of their keys.
  unfoldable mutual
    pub write_canonical : Json → ℕ → Result (List ℕ)
    write_canonical Json.null depth = guard_depth depth (ok (b'n' ∷ b'u' ∷ b'l' ∷ b'l' ∷ []))
    write_canonical (Json.bool true) depth = guard_depth depth (ok (b't' ∷ b'r' ∷ b'u' ∷ b'e' ∷ []))
    write_canonical (Json.bool false) depth =
        guard_depth depth (ok (b'f' ∷ b'a' ∷ b'l' ∷ b's' ∷ b'e' ∷ []))
    write_canonical (Json.number n) depth = guard_depth depth (ok (integer_text n))
    write_canonical (Json.other_number n) depth =
        guard_depth depth (invalid "non-integer number {n} cannot be canonicalized")
    write_canonical (Json.string s) depth = guard_depth depth (ok (json_text s))
    write_canonical (Json.array items) depth =
        guard_depth depth
          (do ts ← write_items items (depth + 1); ok (b'[' ∷ join_items ts ++ b']' ∷ []))
    write_canonical (Json.object fields) depth =
        guard_depth depth
          (do ms ← write_members fields (depth + 1); ok (b'{' ∷ join_members ms ++ b'}' ∷ []))

    pub write_items : JsonItems → ℕ → Result (List (List ℕ))
    write_items JsonItems.nil depth = ok []
    write_items (JsonItems.cons v vs) depth = do
      t ← write_canonical v depth
      ts ← write_items vs depth
      ok (t ∷ ts)

    pub write_members : JsonFields → ℕ → Result (List (String × List ℕ))
    write_members JsonFields.end depth = ok []
    write_members (JsonFields.field k v fs) depth = do
      t ← write_canonical v depth
      ms ← write_members fs depth
      ok (put_sorted k t ms)

  unfoldable pub canonical_json : Json → Result (List ℕ)
  unfolding write_canonical
  canonical_json value = write_canonical value 0
