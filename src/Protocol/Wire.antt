-- ===== src/Protocol/Wire.antt =====
-- What internal/protocol/codec.go uses of bytes.Buffer, bytes.Reader, encoding/binary and io:
-- big-endian writes and reads of fixed widths, and reads of a counted run of bytes. A buffer is
-- the list of its bytes; a Go string is the list of its bytes too.
pub mod Reads
use df_ai.Base.{
  Bool, Error, FitsSigned, List, Result, [], drop, eof, err, if◌then◌else◌, leb, length, ltb, not,
  of_word, ok, payload_too_short, suc, take, text_too_long, to_word, unexpected_eof, zero, ℕ, ℤ,
  ◌%◌, ◌*◌, ◌++◌, ◌+◌, ◌/◌, ◌<◌, ◌==◌, ◌^◌, ◌∷◌, ◌≤◌,
}

abbrev pub Bytes : Type 0
Bytes = List ℕ

-- The ranges of Go's types, and the longest text that a uint16 counts.
abbrev pub IsU8 : ℕ → Type 0
IsU8 n = n < 2 ^ 8

abbrev pub IsU16 : ℕ → Type 0
IsU16 n = n < 2 ^ 16

abbrev pub IsU32 : ℕ → Type 0
IsU32 n = n < 2 ^ 32

abbrev pub IsU64 : ℕ → Type 0
IsU64 n = n < 2 ^ 64

abbrev pub IsI16 : ℤ → Type 0
IsI16 z = FitsSigned (2 ^ 15) z

abbrev pub IsI32 : ℤ → Type 0
IsI32 z = FitsSigned (2 ^ 31) z

abbrev pub IsI64 : ℤ → Type 0
IsI64 z = FitsSigned (2 ^ 63) z

abbrev pub IsText : Bytes → Type 0
IsText s = length s ≤ 65535

-- The codec's own limit on names and tokens.
abbrev pub IsName : Bytes → Type 0
IsName s = length s ≤ 255

-- A chain of writes: what each writes, in order.
abbrev pub written : List Bytes → Bytes
written [] = []
written (w ∷ ws) = w ++ written ws

-- binary.Write of a uint8, uint16, uint32 and uint64.
unfoldable pub put_u8 : ℕ → Bytes
put_u8 n = (n % 256) ∷ []

unfoldable pub put_u16 : ℕ → Bytes
put_u16 n = (n / 2 ^ 8 % 256) ∷ (n % 256) ∷ []

unfoldable pub put_u32 : ℕ → Bytes
put_u32 n = (n / 2 ^ 24 % 256) ∷ (n / 2 ^ 16 % 256) ∷ (n / 2 ^ 8 % 256) ∷ (n % 256) ∷ []

unfoldable pub put_u64 : ℕ → Bytes
put_u64 n = put_u32 (n / 2 ^ 32) ++ put_u32 n

-- binary.Write of an int16, int32 and int64: the two's complement pattern.
unfoldable pub put_i16 : ℤ → Bytes
put_i16 z = put_u16 (to_word (2 ^ 15) z)

unfoldable pub put_i32 : ℤ → Bytes
put_i32 z = put_u32 (to_word (2 ^ 31) z)

unfoldable pub put_i64 : ℤ → Bytes
put_i64 z = put_u64 (to_word (2 ^ 63) z)

-- A bool that the code writes as the byte 0 or 1.
unfoldable pub put_bool : Bool → Bytes
put_bool b = put_u8 (if b then 1 else 0)

-- `uint16(len(s))` and then the bytes of `s`; the conversion wraps.
unfoldable pub put_text : Bytes → Bytes
put_text s = put_u16 (length s) ++ s

-- `if len(s) > max { return errors.New(…) }` in front of what the code goes on to write.
unfoldable pub limited : ℕ → Bytes → Result Bytes → Result Bytes
limited max s next = if ltb max (length s) then err text_too_long else next

-- A read gives the value and the bytes that are left.
abbrev pub Reader : Type 0 → Type 0
Reader A = Bytes → Result (A × Bytes)

infixl 5 ◌>>=◌
abbrev pub ◌>>=◌ : {A B : Type 0} → Reader A → (A → Reader B) → Reader B
◌>>=◌ m f bs = elim (m bs) [ ok (a, rest) ↦ f a rest | err e ↦ err e ]

abbrev pub pure : {A : Type 0} → A → Reader A
pure a bs = ok (a, bs)

abbrev pub fail : {A : Type 0} → Error → Reader A
fail e bs = err e

-- What io.ReadFull answers on a short input: EOF where it got nothing, else ErrUnexpectedEOF.
abbrev pub short : {A : Type 0} → Bytes → Result A
short [] = err eof
short (b ∷ bs) = err unexpected_eof

-- io.ReadFull into a slice of `n` bytes.
unfoldable pub read_full : ℕ → Reader Bytes
read_full n bs = if leb n (length bs) then ok (take n bs, drop n bs) else short bs

-- binary.Read of a uint8, uint16, uint32 and uint64.
unfoldable pub read_u8 : Reader ℕ
read_u8 (a ∷ rest) = ok (a, rest)
read_u8 bs = short bs

unfoldable pub read_u16 : Reader ℕ
read_u16 (a ∷ b ∷ rest) = ok (a * 2 ^ 8 + b, rest)
read_u16 bs = short bs

unfoldable pub read_u32 : Reader ℕ
read_u32 (a ∷ b ∷ c ∷ d ∷ rest) = ok (a * 2 ^ 24 + b * 2 ^ 16 + c * 2 ^ 8 + d, rest)
read_u32 bs = short bs

-- Eight bytes at once: a short input is not an EOF after its first half.
unfoldable pub read_u64 : Reader ℕ
unfolding read_u32
read_u64 (a ∷ b ∷ c ∷ d ∷ e ∷ f ∷ g ∷ h ∷ rest) = ok (
  (a * 2 ^ 24 + b * 2 ^ 16 + c * 2 ^ 8 + d) * 2 ^ 32 + (e * 2 ^ 24 + f * 2 ^ 16 + g * 2 ^ 8 + h),
  rest,
)
read_u64 bs = short bs

unfoldable pub read_i16 : Reader ℤ
read_i16 = read_u16 >>= λ w. pure (of_word (2 ^ 15) w)

unfoldable pub read_i32 : Reader ℤ
read_i32 = read_u32 >>= λ w. pure (of_word (2 ^ 31) w)

unfoldable pub read_i64 : Reader ℤ
read_i64 = read_u64 >>= λ w. pure (of_word (2 ^ 63) w)

-- A byte that the code compares with 0.
unfoldable pub read_bool : Reader Bool
read_bool = do b ← read_u8; pure (not (b == 0))

-- A uint16 length and that many bytes.
unfoldable pub read_text : Reader Bytes
read_text = do n ← read_u16; read_full n

-- A read whose io.EOF is taken for an absent tail: `if err != io.EOF { return nil, err }`.
unfoldable pub or_at_eof : {A : Type 0} → A → Reader A → Reader A
or_at_eof default read bs = elim (read bs) [
  | ok r ↦ ok r
  | err e ↦ elim e [ eof ↦ ok (default, bs) | other ↦ err other ]
]

-- A text whose length may be absent with the whole tail: only the read of the length forgives an
-- io.EOF, and the text is empty then.
unfoldable pub read_text_tail : Reader Bytes
read_text_tail bs = elim (read_u16 bs) [
  | ok (n, rest) ↦ read_full n rest
  | err e ↦ elim e [ eof ↦ ok ([], bs) | other ↦ err other ]
]

-- `for i := range xs { write(xs[i]) }`
unfoldable pub write_all : {A : Type 0} → (A → Bytes) → List A → Bytes
write_all write [] = []
write_all write (x ∷ xs) = write x ++ write_all write xs

-- `for i := 0; i < n; i++ { xs[i] = read() }`
unfoldable pub read_many : {A : Type 0} → ℕ → Reader A → Reader (List A)
read_many zero read = pure []
read_many (suc n) read = do x ← read; xs ← read_many n read; pure (x ∷ xs)

-- A deserialize function: the check of the least length, and a read that ignores what it leaves.
unfoldable pub parse : {A : Type 0} → ℕ → Reader A → Bytes → Result A
parse least read bs =
    if ltb (length bs) least
    then err payload_too_short
    else elim (read bs) [ ok (a, rest) ↦ ok a | err e ↦ err e ]
