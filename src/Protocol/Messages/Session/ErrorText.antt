-- ===== src/Protocol/Messages/Session/ErrorText.antt =====
-- serializeError and deserializeError of internal/protocol/codec.go, by the length of the text.
use df_ai.Base.{
  arith, err, length, length-append, ok, slice_panic, take-append, ℕ, ◌%◌, ◌*◌, ◌++◌, ◌+◌, ◌/◌, ◌^◌,
  ◌∙◌, ◌∷◌, ◌≡◌, ◌≤◌,
}
use df_ai.Protocol.Wire.{Bytes, IsText, IsU16, put_text, put_u16}
use df_ai.Protocol.Messages.Session.{
  ErrorMessage, deserialize_error, error_body, serialize_error, slice_from_4,
}

module _ (a b c d code : ℕ) (text more : Bytes) where
  body_ok :
      length text ≤ 65531
      → error_body (a ∷ b ∷ c ∷ d ∷ (text ++ more)) code (length text)
        ≡ ok (record { code = code; message = text })
  unfolding error_body slice_from_4
  body_ok h = ground (arith, length-append text more, take-append text more)

  body_panics :
      65532 ≤ length text
      → IsText text
      → error_body (a ∷ b ∷ c ∷ d ∷ (text ++ more)) code (length text) ≡ err slice_panic
  unfolding error_body slice_from_4
  body_panics lo hi = ground (arith, length-append text more)

big_endian : (n : ℕ) → IsU16 n → n / 2 ^ 8 % 256 * 2 ^ 8 + n % 256 ≡ n
big_endian n h = omega arith

-- On a payload that serializeError wrote, the two numbers are the code and the length.
header :
    (m : ErrorMessage) (rest : Bytes)
    → IsU16 m.code
    → IsText m.message
    → deserialize_error (serialize_error m ++ rest)
      ≡ error_body (serialize_error m ++ rest) m.code (length m.message)
unfolding deserialize_error serialize_error put_u16 put_text
header m rest hc ht = λ i.
    error_body (serialize_error m ++ rest) (big_endian m.code hc i)
      (big_endian (length m.message) (omega arith) i)

-- An ERROR with a uint16 code and a text of at most 65531 bytes is read back as it was, whatever
-- bytes follow.
pub deserialize_error-serialize_error :
    (m : ErrorMessage) (rest : Bytes)
    → IsU16 m.code
    → length m.message ≤ 65531
    → deserialize_error (serialize_error m ++ rest) ≡ ok m
unfolding serialize_error put_u16 put_text
deserialize_error-serialize_error m rest hc ht =
    header m rest hc (omega arith) ∙ body_ok _ _ _ _ m.code m.message rest ht

-- An ERROR with a uint16 code and a text of 65532 to 65535 bytes, which serializeError sends with
-- its full length, makes deserializeError panic.
pub deserialize_error_panics :
    (m : ErrorMessage) (rest : Bytes)
    → IsU16 m.code
    → 65532 ≤ length m.message
    → IsText m.message
    → deserialize_error (serialize_error m ++ rest) ≡ err slice_panic
unfolding serialize_error put_u16 put_text
deserialize_error_panics m rest hc lo hi =
    header m rest hc hi ∙ body_panics _ _ _ _ m.code m.message rest lo hi
