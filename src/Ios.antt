-- ===== src/Ios.antt =====
-- version-1/ios.c: growing byte buffers, written at the end and read from the front.
--
-- `buf` holds the `len` bytes that were written; the rest of the `alloc_len` reserved bytes is never
-- initialised, and reading or writing outside is a fault. A pointer into a buffer is the list of the
-- written bytes from there on. `unsigned` arithmetic wraps at 2 ^ 32.
pub mod Valid
pub mod Appending
pub mod Codec
pub mod Fields
pub mod Buffers
use cryptar.Prelude.{
  ℕ, ◌+◌, ◌-◌, ◌*◌, ◌/◌, ◌%◌, ◌^◌, ◌||◌, Option, none, some, List, [], ◌∷◌, ◌++◌, ltb, leb, ◌==◌,
  if◌then◌else◌, length, take, drop, and_then, Result, ok, fault, out_of_bounds, assertion_failed,
  null_dereference, State, pure, stop, get, ◌>>=◌, ◌>>◌, word, be16, be32, from_be16, from_be32,
}

pub record IosBuf : Type 0 where
  pub buf : List ℕ
  pub len : ℕ
  pub read_ptr : ℕ
  pub alloc_len : ℕ

abbrev pub Stream : Type 0 → Type 0
Stream A = State IosBuf A

abbrev pub ios_min_size : ℕ
ios_min_size = 1024

abbrev pub new : IosBuf
new = record { buf = []; len = 0; read_ptr = 0; alloc_len = ios_min_size }

-- The shift of `ios_grow`: what was read is dropped.
compact : IosBuf → IosBuf
compact ios =
    if ios.read_ptr == 0
    then ios
    else record ios { buf = drop ios.read_ptr ios.buf; len = ios.len - ios.read_ptr; read_ptr = 0 }

unfoldable pub grow : ℕ → IosBuf → IosBuf
unfolding compact
grow size ios =
    let shifted = compact ios in
    if ltb shifted.alloc_len size then record shifted { alloc_len = size } else shifted

-- `size * GROWTH_FACTOR` in double precision, cut to a `guint32`.
abbrev growth : ℕ → ℕ
growth size = size * 6 / 5 % word

-- The test before the `memmove`, which grows the buffer.
unfoldable pub reserve : ℕ → IosBuf → IosBuf
unfolding grow
reserve size ios =
    if ltb ios.alloc_len ((ios.len + ios.read_ptr + size) % word)
    then grow (growth ((ios.len + size) % word)) ios
    else ios

-- `memmove(&ios->buf[ios->len], data, size)` and the new length.
unfoldable pub write_at_end : List ℕ → IosBuf → Result (Unit {0} × IosBuf)
write_at_end bytes ios =
    if ltb ios.alloc_len (ios.len + length bytes)
    then fault out_of_bounds
    else ok (tt, record ios { buf = ios.buf ++ bytes; len = (ios.len + length bytes) % word })

-- The size is an `int`: 2 ^ 31 bytes or more are a negative size, which the assertion refuses.
unfoldable pub append : List ℕ → Stream (Unit {0})
unfolding reserve write_at_end
append bytes ios =
    if leb (2 ^ 31) (length bytes)
    then fault assertion_failed
    else if length bytes == 0
    then ok (tt, ios)
    else write_at_end bytes (reserve (length bytes) ios)

-- `ios_append(ios, ios_src->buf, ios_src->len)`
unfoldable pub append_ios : IosBuf → Stream (Unit {0})
append_ios ios_src = append ios_src.buf

unfoldable pub new_copy : IosBuf → Result (Unit {0} × IosBuf)
new_copy ios_src = append_ios ios_src new

unfoldable pub buffer_size : IosBuf → ℕ
buffer_size ios = (ios.len + word - ios.read_ptr) % word

unfoldable pub at : IosBuf → ℕ → Option (List ℕ)
at ios offset =
    if ltb (buffer_size ios) offset || buffer_size ios == 0
    then none
    else some (drop (ios.read_ptr + offset) ios.buf)

unfoldable pub buffer : IosBuf → Option (List ℕ)
buffer ios = at ios 0

-- The sum is a `guint32`: it wraps.
unfoldable pub read : ℕ → Stream (Option (List ℕ))
read n ios =
    let past = (ios.read_ptr + n) % word in
    if ltb ios.len past
    then ok (none, ios)
    else ok (some (drop ios.read_ptr ios.buf), record ios { read_ptr = past })

unfoldable pub reset : IosBuf → IosBuf
reset ios = record ios { buf = []; len = 0; read_ptr = 0 }

unfoldable pub append_int8 : ℕ → Stream (Unit {0})
append_int8 num = append (num % 256 ∷ [])

unfoldable pub append_int16 : ℕ → Stream (Unit {0})
append_int16 num = append (be16 num)

unfoldable pub append_int32 : ℕ → Stream (Unit {0})
append_int32 num = append (be32 num)

-- A C string is the list of its bytes, without the terminator.
unfoldable pub append_string : List ℕ → Stream (Unit {0})
append_string str = do append_int32 (length str); append str

-- `n` bytes from a pointer: `memcpy`, `memmove` and `g_memdup`.
unfoldable pub copy_from : ℕ → Option (List ℕ) → Stream (List ℕ)
copy_from n none ios = fault null_dereference
copy_from n (some bytes) ios =
    if ltb (length bytes) n then fault out_of_bounds else ok (take n bytes, ios)

load16 : List ℕ → Stream ℕ
load16 (a ∷ b ∷ _) = pure (from_be16 a b)
load16 _ = stop out_of_bounds

unfoldable pub load32 : List ℕ → Stream ℕ
load32 (a ∷ b ∷ c ∷ d ∷ _) = pure (from_be32 a b c d)
load32 _ = stop out_of_bounds

-- `ios->read_ptr += n; assert(ios->read_ptr <= ios->len)`
skip : ℕ → Stream (Unit {0})
skip n ios =
    if leb (ios.read_ptr + n) ios.len
    then ok (tt, record ios { read_ptr = ios.read_ptr + n })
    else fault assertion_failed

unfoldable pub read_int16 : Stream ℕ
unfolding load16 skip
read_int16 = do ios ← get; num ← load16 (drop ios.read_ptr ios.buf); skip 2; pure num

unfoldable pub read_int32 : Stream ℕ
unfolding load32 skip
read_int32 = do ios ← get; num ← load32 (drop ios.read_ptr ios.buf); skip 4; pure num

-- `*(ios_int32_at)`: `bp` is NULL where the buffer is empty.
unfoldable pub int32_at : ℕ → Stream ℕ
unfolding load32
int32_at offset ios = elim (buffer ios) [
  | none ↦ fault null_dereference
  | some bp ↦ load32 (drop offset bp) ios
]

unfoldable pub int16_at : ℕ → Stream ℕ
unfolding load16
int16_at offset ios = elim (buffer ios) [
  | none ↦ fault null_dereference
  | some bp ↦ load16 (drop offset bp) ios
]

unfoldable pub first : List ℕ → Stream ℕ
first [] = stop out_of_bounds
first (b ∷ _) = pure b

-- The first byte of what `ios_read(ios, 1)` points at.
unfoldable pub read_byte : Stream ℕ
unfolding first
read_byte = do p ← read 1; byte ← copy_from 1 p; first byte

-- `n` bytes of what `ios_read(ios, n)` points at.
unfoldable pub read_bytes : ℕ → Stream (List ℕ)
read_bytes n = do p ← read n; copy_from n p

-- What `g_strndup` keeps of some bytes: those before the first zero.
abbrev pub before_nul : List ℕ → List ℕ
before_nul [] = []
before_nul (b ∷ bs) = if b == 0 then [] else b ∷ before_nul bs

unfoldable pub strndup : Option (List ℕ) → ℕ → Stream (Option (List ℕ))
strndup none n = pure none
strndup (some bytes) n = do copied ← copy_from n (some bytes); pure (some (before_nul copied))

-- `none` is NULL.
unfoldable pub read_str : Stream (Option (List ℕ))
read_str = do n ← read_int32; if n == 0 then pure none else do p ← read n; strndup p n

-- `ios_set_buffer` and `ios_copy_ios`
unfoldable pub set_buffer : List ℕ → Stream (Unit {0})
set_buffer bytes ios = append bytes (reset ios)

unfoldable pub copy_ios : IosBuf → Stream (Unit {0})
copy_ios ios_src ios = append_ios ios_src (reset ios)

-- A stream operation on a buffer of its own, for the buffer that it leaves, and for its result.
abbrev pub written : Stream (Unit {0}) → Result IosBuf
written m = and_then (m new) λ (_, ios). ok ios

abbrev pub parsed : {A : Type 0} → Stream A → IosBuf → Result A
parsed m ios = and_then (m ios) λ (a, _). ok a

-- `ios_new` and `ios_set_buffer`
abbrev pub buffer_of : List ℕ → Result IosBuf
buffer_of bytes = written (set_buffer bytes)

-- What a library is given with `ios_buffer` and `ios_buffer_size`: nothing where the pointer is NULL.
unfoldable pub unread : IosBuf → List ℕ
unread ios = elim (buffer ios) [ none ↦ [] | some bytes ↦ take (buffer_size ios) bytes ]
