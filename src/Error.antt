-- ===== src/Error.antt =====
-- graphrun/src/error.rs: error kinds, errors, and the outcome of a fallible call. `message` holds
-- the literal or the format string of the source, its placeholders not filled in; the optional
-- path, line and column are left out. A panic (an `unwrap` of nothing) is an outcome of its own.
use graphrun.Prelude.{◌≡◌, refl, String, Bool, true, false, Option, none, some}

pub data ErrorKind : Type 0 where
  invalid_argument already_exists failed_precondition unauthenticated : ErrorKind
  permission_denied not_found unavailable resource_exhausted deadline_exceeded : ErrorKind

pub record Error : Type 0 where
  pub kind : ErrorKind
  pub message : String

pub data Result {κ} (T : Type κ) : Type κ where
  ok : (value : T) → Result T
  err : (failure : Error) → Result T
  panic : Result T

-- `Err(Error::new(kind, message))` and `Err(Error::invalid(message))`.
abbrev pub fail {ℓ} : {A : Type ℓ} → ErrorKind → String → Result A
fail k s = err (record { kind = k; message = s })

abbrev pub invalid {ℓ} : {A : Type ℓ} → String → Result A
invalid s = fail invalid_argument s

infixl 5 ◌>>=◌ ◌>>◌
abbrev pub ◌>>=◌ {κ μ} :
    {T : Type κ} {U : Type μ} (call : Result T) (then_call : T → Result U) → Result U
panic >>= then_call = panic
err failure >>= then_call = err failure
ok value >>= then_call = then_call value

-- `check?;` before the rest.
abbrev pub ◌>>◌ {κ} : {U : Type κ} (check : Result (Unit {0})) (rest : Result U) → Result U
check >> rest = check >>= λ passed. rest

-- `if refused { return Err(…); }`.
abbrev pub refuse_if : Bool → ErrorKind → String → Result (Unit {0})
refuse_if true k s = fail k s
refuse_if false k s = ok tt

-- `.ok_or_else(…)?` and `.unwrap()`.
abbrev pub or_fail {ℓ} : {A : Type ℓ} → Option A → ErrorKind → String → Result A
or_fail none k s = fail k s
or_fail (some a) k s = ok a

abbrev pub unwrap {ℓ} : {A : Type ℓ} → Option A → Result A
unwrap none = panic
unwrap (some a) = ok a

-- `.ok()`.
abbrev pub to_option {ℓ} : {A : Type ℓ} → Result A → Option A
to_option (ok a) = some a
to_option (err e) = none
to_option panic = none

pub >>=-eq-ok {ℓ κ} :
    {T : Type ℓ} {U : Type κ} (call : Result T) (then_call : T → Result U) {b : U}
    → (call >>= then_call) ≡ ok b
    → (value : T) × (call ≡ ok value) × (then_call value ≡ ok b)
>>=-eq-ok panic then_call returned = cc
>>=-eq-ok (err failure) then_call returned = cc
>>=-eq-ok (ok value) then_call returned = (value, refl, returned)

-- Two continuations that agree on what a call returns.
pub >>=-cong {ℓ κ} :
    {T : Type ℓ} {U : Type κ} (call : Result T) (f g : T → Result U)
    → ((value : T) → call ≡ ok value → f value ≡ g value)
    → (call >>= f) ≡ (call >>= g)
>>=-cong panic f g same = refl
>>=-cong (err failure) f g same = refl
>>=-cong (ok value) f g same = same value refl
