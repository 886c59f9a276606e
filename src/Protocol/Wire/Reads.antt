-- ===== src/Protocol/Wire/Reads.antt =====
-- Reads of a width on what the write of that width wrote, and the rules that undo a chain of
-- writes.
use df_ai.Base.{
  All, Bool, List, Result, [], append_assoc, arith, drop-append, err, false, length, length-append,
  le→leb, ltb, map, of_word-to_word, ok, payload_too_short, refl, take-append, text_too_long,
  to_word, to_word-lt, true, ℕ, ℤ, ◌++◌, ◌+◌, ◌<◌, ◌^◌, ◌∷◌, ◌≡◌, ◌≤◌,
}
use df_ai.Protocol.Wire.{
  Bytes, IsI16, IsI32, IsI64, IsName, IsText, IsU16, IsU32, IsU64, IsU8, Reader, limited, or_at_eof,
  parse, put_bool, put_i16, put_i32, put_i64, put_text, put_u16, put_u32, put_u64, put_u8,
  read_bool, read_full, read_i16, read_i32, read_i64, read_many, read_text, read_text_tail,
  read_u16, read_u32, read_u64, read_u8, write_all, ◌>>=◌,
}

pub read_u8-put_u8 : (n : ℕ) (rest : Bytes) → IsU8 n → read_u8 (put_u8 n ++ rest) ≡ ok (n, rest)
unfolding read_u8 put_u8
read_u8-put_u8 n rest h = ground arith

pub read_u16-put_u16 :
    (n : ℕ) (rest : Bytes) → IsU16 n → read_u16 (put_u16 n ++ rest) ≡ ok (n, rest)
unfolding read_u16 put_u16
read_u16-put_u16 n rest h = ground arith

pub read_u32-put_u32 :
    (n : ℕ) (rest : Bytes) → IsU32 n → read_u32 (put_u32 n ++ rest) ≡ ok (n, rest)
unfolding read_u32 put_u32
read_u32-put_u32 n rest h = ground arith

pub read_u64-put_u64 :
    (n : ℕ) (rest : Bytes) → IsU64 n → read_u64 (put_u64 n ++ rest) ≡ ok (n, rest)
unfolding read_u64 put_u64 put_u32
read_u64-put_u64 n rest h = ground arith

pub read_i16-put_i16 :
    (z : ℤ) (rest : Bytes) → IsI16 z → read_i16 (put_i16 z ++ rest) ≡ ok (z, rest)
unfolding read_i16 put_i16
read_i16-put_i16 z rest h =
    let word = read_u16-put_u16 (to_word (2 ^ 15) z) rest (to_word-lt (2 ^ 15) z (omega arith)) in
    rw (word, ◌>>=◌) (rw (of_word-to_word (2 ^ 15) z h))

pub read_i32-put_i32 :
    (z : ℤ) (rest : Bytes) → IsI32 z → read_i32 (put_i32 z ++ rest) ≡ ok (z, rest)
unfolding read_i32 put_i32
read_i32-put_i32 z rest h =
    let word = read_u32-put_u32 (to_word (2 ^ 31) z) rest (to_word-lt (2 ^ 31) z (omega arith)) in
    rw (word, ◌>>=◌) (rw (of_word-to_word (2 ^ 31) z h))

pub read_i64-put_i64 :
    (z : ℤ) (rest : Bytes) → IsI64 z → read_i64 (put_i64 z ++ rest) ≡ ok (z, rest)
unfolding read_i64 put_i64
read_i64-put_i64 z rest h =
    let word = read_u64-put_u64 (to_word (2 ^ 63) z) rest (to_word-lt (2 ^ 63) z (omega arith)) in
    rw (word, ◌>>=◌) (rw (of_word-to_word (2 ^ 63) z h))

pub read_bool-put_bool : (b : Bool) (rest : Bytes) → read_bool (put_bool b ++ rest) ≡ ok (b, rest)
unfolding read_bool put_bool put_u8 read_u8
read_bool-put_bool true rest = refl
read_bool-put_bool false rest = refl

pub read_full-append : (s : Bytes) (rest : Bytes) → read_full (length s) (s ++ rest) ≡ ok (s, rest)
unfolding read_full
read_full-append s rest =
    rw (le→leb (length s) (length (s ++ rest)) (omega (arith, length-append s rest)))
      (rw (take-append s rest, drop-append s rest))

text_length : (s : Bytes) → IsText s → IsU16 (length s)
text_length s h = omega arith

pub read_text-put_text :
    (s : Bytes) (rest : Bytes) → IsText s → read_text (put_text s ++ rest) ≡ ok (s, rest)
unfolding read_text put_text
read_text-put_text s rest h =
    rw (append_assoc (put_u16 (length s)) s rest, read_u16-put_u16, text_length s h, ◌>>=◌)
      (read_full-append s rest)

pub IsName-IsText : (s : Bytes) → IsName s → IsText s
IsName-IsText s h = omega arith

pub limited_within :
    (max : ℕ) (s : Bytes) (next : Result Bytes) → length s ≤ max → limited max s next ≡ next
unfolding limited
limited_within max s next h = ground arith

pub limited_over :
    (max : ℕ) (s : Bytes) (next : Result Bytes)
    → max < length s
    → limited max s next ≡ err text_too_long
unfolding limited
limited_over max s next h = ground arith

-- A tail that is there is read.
pub or_at_eof-put_u8 :
    (default n : ℕ) (rest : Bytes)
    → IsU8 n
    → or_at_eof default read_u8 (put_u8 n ++ rest) ≡ ok (n, rest)
unfolding or_at_eof
or_at_eof-put_u8 default n rest h = rw (read_u8-put_u8 n rest h, or_at_eof)

pub read_text_tail-put_text :
    (s rest : Bytes) → IsText s → read_text_tail (put_text s ++ rest) ≡ ok (s, rest)
unfolding read_text_tail put_text
read_text_tail-put_text s rest h = rw (append_assoc (put_u16 (length s)) s rest) (
    rw (read_u16-put_u16 (length s) (s ++ rest) (text_length s h), read_text_tail)
      (read_full-append s rest))

-- What undoes a chain of writes: for `simp`, with the ranges of the written values.
pub ruleset reads = (
  append_assoc, read_u8-put_u8, read_u16-put_u16, read_u32-put_u32, read_u64-put_u64,
  read_i16-put_i16, read_i32-put_i32, read_i64-put_i64, read_bool-put_bool, read_text-put_text,
  limited_within, or_at_eof-put_u8, read_text_tail-put_text, ◌>>=◌,
)

pub bind_ok :
    {A B : Type 0} (read : Reader A) (f : A → Reader B) (bs : Bytes) {a : A} {rest : Bytes}
    → read bs ≡ ok (a, rest)
    → (read >>= f) bs ≡ f a rest
bind_ok read f bs e = rw (e, ◌>>=◌)

pub read_many-write_all :
    {A : Type 0} (P : A → Type 0) (write : A → Bytes) (read : Reader A)
    → ((x : A) (rest : Bytes) → P x → read (write x ++ rest) ≡ ok (x, rest))
    → (xs : List A) (rest : Bytes) → All P xs
    → read_many (length xs) read (write_all write xs ++ rest) ≡ ok (xs, rest)
unfolding read_many write_all
read_many-write_all P write read one [] rest h = refl
read_many-write_all P write read one (x ∷ xs) rest h =
    rw (append_assoc (write x) (write_all write xs) rest) (
      rw (one x (write_all write xs ++ rest) h.0, ◌>>=◌)
        (rw (read_many-write_all P write read one xs rest h.1, ◌>>=◌)))

lt_false : (a b : ℕ) → b ≤ a → ltb a b ≡ false
lt_false a b h = ground arith

pub parse_ok :
    {A : Type 0} (least : ℕ) (read : Reader A) (bs : Bytes) {a : A} {rest : Bytes}
    → least ≤ length bs
    → read bs ≡ ok (a, rest)
    → parse least read bs ≡ ok a
unfolding parse
parse_ok least read bs long e = rw (lt_false (length bs) least long) (rw e)

pub parse_short :
    {A : Type 0} (least : ℕ) (read : Reader A) (bs : Bytes)
    → length bs < least
    → parse least read bs ≡ err payload_too_short
unfolding parse
parse_short least read bs h = ground arith

-- How much each write takes.
pub length-put_u8 : (n : ℕ) → length (put_u8 n) ≡ 1
unfolding put_u8
length-put_u8 n = refl

pub length-put_u16 : (n : ℕ) → length (put_u16 n) ≡ 2
unfolding put_u16
length-put_u16 n = refl

pub length-put_u32 : (n : ℕ) → length (put_u32 n) ≡ 4
unfolding put_u32
length-put_u32 n = refl

pub length-put_u64 : (n : ℕ) → length (put_u64 n) ≡ 8
unfolding put_u64 put_u32
length-put_u64 n = refl

pub length-put_text : (s : Bytes) → length (put_text s) ≡ 2 + length s
unfolding put_text put_u16
length-put_text s = omega arith

pub ruleset lengths =
    (length-append, length-put_u8, length-put_u16, length-put_u32, length-put_u64, length-put_text)

-- The same where the read gives `f x` for what was written for `x`.
pub read_many-write_all-map :
    {A B : Type 0} (P : A → Type 0) (f : A → B) (write : A → Bytes) (read : Reader B)
    → ((x : A) (rest : Bytes) → P x → read (write x ++ rest) ≡ ok (f x, rest))
    → (xs : List A) (rest : Bytes) → All P xs
    → read_many (length xs) read (write_all write xs ++ rest) ≡ ok (map f xs, rest)
unfolding read_many write_all
read_many-write_all-map P f write read one [] rest h = refl
read_many-write_all-map P f write read one (x ∷ xs) rest h =
    rw (append_assoc (write x) (write_all write xs) rest) (
      rw (one x (write_all write xs ++ rest) h.0, ◌>>=◌)
        (rw (read_many-write_all-map P f write read one xs rest h.1, ◌>>=◌)))
