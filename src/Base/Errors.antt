-- ===== src/Base/Errors.antt =====
-- Go's (value, error) pairs. An error is its kind, without the text that goes to the log.
use mathlib.Core.Path.{◌≡◌, refl}
use mathlib.Core.Bool.{Bool, true, false}

pub data Error : Type 0 where
  -- io.EOF and io.ErrUnexpectedEOF
  eof unexpected_eof : Error
  -- errors.New and fmt.Errorf of the codec
  payload_too_short payload_truncated : Error
  text_too_long : Error
  invalid_message_length version_mismatch invalid_message_type : Error
  unknown_command_type : Error
  validation_failed : Error
  not_connected : Error
  unexpected_message : Error
  -- fmt.Errorf of the overlay
  out_of_bounds tile_count_mismatch : Error
  -- What net.Dial, Write and Close of a net.Conn answer.
  network_error : Error
  -- No error value: the run-time panic of a slice expression whose end is before its start.
  slice_panic : Error
  -- No error value: the run-time panic of an index that is out of range.
  index_panic : Error

-- A value, or the kind of an error.
pub data Result {ℓ} (Value : Type ℓ) : Type ℓ where
  err : Error → Result Value
  ok : Value → Result Value

infixl 5 ◌>>=◌ ◌>>◌
-- `if err != nil { return …, err }`, and otherwise what follows.
abbrev pub ◌>>=◌ {ℓ κ} : {V : Type ℓ} {W : Type κ} → Result V → (V → Result W) → Result W
err failure >>= next = err failure
ok value >>= next = next value

-- The same after a check, which has no value.
abbrev pub ◌>>◌ {ℓ} : {V : Type ℓ} → Result (Unit {0}) → Result V → Result V
check >> next = check >>= λ passed. next

-- `if !test { return err }`
abbrev pub guard : Bool → Error → Result (Unit {0})
guard false failure = err failure
guard true failure = ok tt

pub >>=-eq-ok {ℓ κ} :
    {V : Type ℓ} {W : Type κ} (first : Result V) (next : V → Result W) {answer : W}
    → (first >>= next) ≡ ok answer
    → (value : V) × (first ≡ ok value) × (next value ≡ ok answer)
>>=-eq-ok (err failure) next whole = cc
>>=-eq-ok (ok value) next whole = (value, refl, whole)

-- A check passes, and what follows it.
pub guard_then :
    (b : Bool) (e : Error) (next : Result (Unit {0}))
    → (guard b e >> next) ≡ ok tt
    → (b ≡ true) × (next ≡ ok tt)
guard_then true e next h = (refl, h)
guard_then false e next h = cc

pub then_guard :
    (b : Bool) (e : Error) (next : Result (Unit {0}))
    → b ≡ true
    → next ≡ ok tt
    → (guard b e >> next) ≡ ok tt
then_guard true e next p h = h
then_guard false e next p h = cc
