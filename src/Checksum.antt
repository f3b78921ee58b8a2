-- ===== src/Checksum.antt =====
-- version-1/checksum.c: the weak rolling checksum. Window has the table of the weak checksums of a
-- file; the comparison by strong checksums stands in Covering.
--
-- Bytes are numbers below 256; `guint32` arithmetic wraps. Whether a plain `char` is signed depends on
-- the machine: `plain` is its conversion to an `int`, as a word.
pub mod Weak
pub mod Rolling
pub mod Window
use cryptar.Prelude.{
  ℕ, zero, suc, ◌+◌, ◌-◌, ◌*◌, ◌/◌, ◌%◌, ◌^◌, Bool, true, false, ◌&&◌, Option, none, some, List, [],
  ◌∷◌, ◌++◌, ltb, leb, ◌==◌, if◌then◌else◌, length, take, drop, Result, ok, fault, out_of_bounds,
  out_of_fuel, and_then, State, pure, stop, assert, ◌>>=◌, ◌>>◌, word, sub32,
}
use cryptar.Hash
use cryptar.Hash.{Hash}

-- The conversion of a `signed char`, and of an `unsigned char`, to a `guint32`.
abbrev pub schar : ℕ → ℕ
schar b = if ltb b 128 then b else b + (word - 256)

abbrev pub uchar : ℕ → ℕ
uchar b = b

-- CHAR4_TO_INT32, as the `guint32` that its result is stored in.
abbrev pub char4_to_int32 : (ℕ → ℕ) → ℕ → ℕ → ℕ → ℕ → ℕ
char4_to_int32 c b0 b1 b2 b3 = (c b0 * 2 ^ 24 + c b1 * 2 ^ 16 + c b2 * 2 ^ 8 + c b3) % word

-- `(s2 << 16) + (s1 & M16)` after `s2 = s2 & M16`
abbrev pub join : ℕ → ℕ → ℕ
join s1 s2 = s2 % 2 ^ 16 * 2 ^ 16 + s1 % 2 ^ 16

-- The loop of `WCsum_get`, on the bytes from `&buf[i]` on.
unfoldable pub get_loop : (ℕ → ℕ) → List ℕ → (i len s1 s2 : ℕ) → Result (ℕ × ℕ)
get_loop plain (a ∷ b ∷ c ∷ d ∷ p) i len s1 s2 =
    let s = char4_to_int32 plain a b c d in
    let rest =
      get_loop plain p (i + 4) len ((s1 + s) % word) ((s2 + sub32 (len / 4) (i / 4) * s) % word) in
    if ltb i len then rest else ok (s1, s2)
get_loop plain _ i len s1 s2 = if ltb i len then fault out_of_bounds else ok (s1, s2)

unfoldable pub wc_sum_get : (ℕ → ℕ) → List ℕ → ℕ → Result ℕ
unfolding get_loop
wc_sum_get plain buf len = and_then (get_loop plain buf 0 len 0 0) λ (s1, s2). ok (join s1 s2)

-- `CHAR4_TO_INT32(p)` for a pointer to `signed char`
unfoldable pub signed_word : List ℕ → Result ℕ
signed_word (a ∷ b ∷ c ∷ d ∷ _) = ok (char4_to_int32 schar a b c d)
signed_word _ = fault out_of_bounds

unfoldable pub update_sums : (s_old s_new old_sum len : ℕ) → ℕ
update_sums s_old s_new old_sum len =
    let s1 = (sub32 (old_sum % 2 ^ 16) s_old + s_new) % word in
    let s2 = old_sum / 2 ^ 16 % 2 ^ 16 in
    let s2 = (sub32 s2 (len / 4 * s_old % word) % 2 ^ 16 + s1) % word in join s1 s2

unfoldable pub wc_sum_update : (old4 new4 : List ℕ) → (old_sum len : ℕ) → Result ℕ
wc_sum_update old4 new4 old_sum len =
    and_then (signed_word old4)
      λ s_old. and_then (signed_word new4) λ s_new. ok (update_sums s_old s_new old_sum len)
