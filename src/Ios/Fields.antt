-- ===== src/Ios/Fields.antt =====
-- The integers, byte strings and texts of version-1/ios.c.
use cryptar.Prelude.{
  ℕ, suc, ◌+◌, ◌%◌, ◌^◌, ◌≤◌, ◌<◌, ◌≡◌, ◌≢◌, refl, ◌∙◌, ap, List, [], ◌∷◌, ◌++◌, Option, none, some,
  length, arith, ok, pure, ◌>>=◌, run_next, length-append, take-append, le→leb, le→not_ltb, be16,
  be32, from_be32-be32, from_be16-be16, ◌==◌, if◌then◌else◌, ne→not_==,
}
use cryptar.Ios.{
  IosBuf, Stream, append_int8, append_int16, append_int32, append_string, read_byte, read_bytes,
  read_int16, read_int32, read_str, read, copy_from, buffer, buffer_size, at, strndup, before_nul,
}
use native.Mathlib.Nat.{add-zero}
use cryptar.Ios.Valid.{IsValid, contents, advance, length-contents, buffer_size-contents}
use cryptar.Ios.Codec.{Emits, Parses, append-Emits, >>-Emits, >>=-Parses}

pub append_int8-Emits : (n : ℕ) → Emits (append_int8 n) (n % 256 ∷ [])
unfolding append_int8
append_int8-Emits n = append-Emits (n % 256 ∷ [])

pub append_int16-Emits : (n : ℕ) → Emits (append_int16 n) (be16 n)
unfolding append_int16
append_int16-Emits n = append-Emits (be16 n)

pub append_int32-Emits : (n : ℕ) → Emits (append_int32 n) (be32 n)
unfolding append_int32
append_int32-Emits n = append-Emits (be32 n)

pub append_string-Emits : (str : List ℕ) → Emits (append_string str) (be32 (length str) ++ str)
unfolding append_string
append_string-Emits str = >>-Emits (append_int32-Emits (length str)) (append-Emits str)

-- What a read of `n` bytes needs, from the bytes in front.
enough :
    {ios : IosBuf} (bs rest : List ℕ)
    → IsValid ios
    → contents ios ≡ bs ++ rest
    → ios.read_ptr + length bs ≤ ios.len
enough {ios} bs rest v e =
    omega (arith, v.read_in, length-contents v, ap length e, length-append bs rest)

pub read-Parses :
    (ios : IosBuf) (bs rest : List ℕ)
    → IsValid ios
    → contents ios ≡ bs ++ rest
    → read (length bs) ios ≡ ok (some (bs ++ rest), advance (length bs) ios)
unfolding read
read-Parses ios bs rest v e = ground (arith, enough bs rest v e, v.in_room, v.small)

pub read_int32-Parses : (n : ℕ) → Parses read_int32 (be32 n) (n % 2 ^ 32)
unfolding read_int32
read_int32-Parses n = record {
  run = λ ios rest v e.
      rw (e, le→leb (ios.read_ptr + 4) ios.len (enough (be32 n) rest v e), from_be32-be32 n);
}

pub read_int16-Parses : (n : ℕ) → Parses read_int16 (be16 n) (n % 2 ^ 16)
unfolding read_int16
read_int16-Parses n = record {
  run = λ ios rest v e.
      rw (e, le→leb (ios.read_ptr + 2) ios.len (enough (be16 n) rest v e), from_be16-be16 n);
}

pub copy_from-append :
    (bs rest : List ℕ) (ios : IosBuf) → copy_from (length bs) (some (bs ++ rest)) ios ≡ ok (bs, ios)
unfolding copy_from
copy_from-append bs rest ios = rw (
  le→not_ltb (length (bs ++ rest)) (length bs) (omega (arith, length-append bs rest)),
  take-append (length bs) bs rest refl,
)

pub read_bytes-Parses : (bs : List ℕ) → Parses (read_bytes (length bs)) bs bs
unfolding read_bytes
read_bytes-Parses bs = record {
  run = λ ios rest v e.
      rw (read-Parses ios bs rest v e) (copy_from-append bs rest (advance (length bs) ios));
}

pub read_byte-Parses : (b : ℕ) → Parses read_byte (b ∷ []) b
unfolding read_byte
read_byte-Parses b = record {
  run = λ ios rest v e.
      rw (read-Parses ios (b ∷ []) rest v e, copy_from-append (b ∷ []) rest (advance 1 ios));
}

-- No byte of a C string is zero.
abbrev pub NoNul : List ℕ → Type 0
NoNul [] = Unit
NoNul (b ∷ bs) = (b ≢ 0) × NoNul bs

pub before_nul-NoNul : (bs : List ℕ) → NoNul bs → before_nul bs ≡ bs
before_nul-NoNul [] h = refl
before_nul-NoNul (b ∷ bs) h = rw (ne→not_== b 0 h.0) (ap (λ t. b ∷ t) (before_nul-NoNul bs h.1))

abbrev rest_of_str : ℕ → Stream (Option (List ℕ))
rest_of_str n = if n == 0 then pure none else do p ← read n; strndup p n

rest_of_str-Parses :
    (str : List ℕ) → NoNul str → 0 < length str → Parses (rest_of_str (length str)) str (some str)
unfolding strndup
rest_of_str-Parses str h pos = record {
  run = λ ios rest v e. rw (
    ne→not_== (length str) 0 (omega arith),
    read-Parses ios str rest v e,
    copy_from-append str rest (advance (length str) ios),
    before_nul-NoNul str h,
  );
}

pub read_str-Parses :
    (str : List ℕ)
    → NoNul str
    → 0 < length str
    → length str < 2 ^ 32
    → Parses read_str (be32 (length str) ++ str) (some str)
unfolding read_str
read_str-Parses str h pos small =
    >>=-Parses rest_of_str
      (rw (let e : length str % 2 ^ 32 ≡ length str = omega arith in e) at
        (read_int32-Parses (length str)))
      (rest_of_str-Parses str h pos)

-- The empty text comes back as NULL.
pub read_str-Parses_empty : Parses read_str (be32 0) none
unfolding read_str
read_str-Parses_empty = record {
  run = λ ios rest v e. ap (λ x. run_next x rest_of_str) ((read_int32-Parses 0).run ios rest v e);
}

-- The same for values that fit their C types.
pub byte-Parses : (b : ℕ) → b < 2 ^ 8 → Parses read_byte (b % 256 ∷ []) b
byte-Parses b h = rw (let e : b % 256 ≡ b = omega arith in e) (read_byte-Parses b)

pub word16-Parses : (n : ℕ) → n < 2 ^ 16 → Parses read_int16 (be16 n) n
word16-Parses n h = rw (let e : n % 2 ^ 16 ≡ n = omega arith in e) at (read_int16-Parses n)

pub word32-Parses : (n : ℕ) → n < 2 ^ 32 → Parses read_int32 (be32 n) n
word32-Parses n h = rw (let e : n % 2 ^ 32 ≡ n = omega arith in e) at (read_int32-Parses n)

pub bytes-Parses : (n : ℕ) (bs : List ℕ) → length bs ≡ n → Parses (read_bytes n) bs bs
bytes-Parses n bs e = rw e at (read_bytes-Parses bs)

-- `ios_buffer` is NULL exactly where nothing is unread.
pub buffer-some :
    {ios : IosBuf} (b : ℕ) (bs : List ℕ)
    → IsValid ios
    → contents ios ≡ b ∷ bs
    → buffer ios ≡ some (b ∷ bs)
unfolding buffer at
buffer-some {ios} b bs v e =
    let size : buffer_size ios ≡ suc (length bs) = buffer_size-contents v ∙ ap length e in
    rw (size, add-zero ios.read_ptr, e) (ground arith)

pub buffer-none : {ios : IosBuf} → IsValid ios → contents ios ≡ [] → buffer ios ≡ none
unfolding buffer at
buffer-none {ios} v e =
    let size : buffer_size ios ≡ 0 = buffer_size-contents v ∙ ap length e in rw size
