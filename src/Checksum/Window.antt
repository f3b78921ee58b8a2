-- ===== src/Checksum/Window.antt =====
-- version-1/checksum.c: the hash table of the checksums of a file, `WCsum_make_hash`.
--
-- The file is the list of its bytes, `rest` those behind the file position, and is read without errors.
-- The two static buffers are values: a call fills `buf` before it reads it, whatever an earlier call left.
-- `DEBUG_WCSUM` is 1 in the source, so `WCsum_verify` is called.
pub mod Windows
pub mod Step
pub mod Table
use Prim.Native.Nat.{min}
use cryptar.Prelude.{
  ℕ, zero, suc, ◌+◌, ◌-◌, ◌%◌, Option, none, some, not, ◌||◌, ◌&&◌, List, [], ◌∷◌, ◌++◌, ltb, leb,
  ◌==◌, if◌then◌else◌, length, take, drop, out_of_fuel, pure, stop, lift, assert, ◌>>=◌, ◌>>◌, word,
}
use cryptar.Hash
use cryptar.Hash.{Hash}
use cryptar.Checksum.{wc_sum_get, wc_sum_update, schar}

abbrev pub zero_bytes : ℕ → List ℕ
zero_bytes zero = []
zero_bytes (suc n) = 0 ∷ zero_bytes n

-- What `WCsum_buffer_update` leaves in the buffer.
abbrev pub buffer_update : List ℕ → ℕ → List ℕ
buffer_update rest len = take len rest ++ zero_bytes (len - length (take len rest))

-- `buf_len` is `block_len`.
unfoldable pub verify : (last_buf buf : List ℕ) → (i block_len csum : ℕ) → Hash (Unit {0})
verify last_buf buf i block_len csum = do
  let first = min block_len (block_len - i)
  csum_verify ←
      lift
        (wc_sum_get schar (take first (drop i last_buf) ++ take (block_len - first) buf) block_len)
  assert (csum == csum_verify)

-- The part of the loop under `i + 4 <= num`: the checksum of the next window.
unfoldable pub next_sum : (last_buf buf : List ℕ) → (i block_len csum : ℕ) → Hash ℕ
next_sum last_buf buf i block_len csum = do
  next ← lift (wc_sum_update (drop i last_buf) (drop i buf) csum block_len)
  verify last_buf buf (i + 4) block_len next
  pure next

-- The two buffers, what is left of the file, the bytes in the newer buffer and the place in it.
pub record Reading : Type 0 where
  pub last_buf : List ℕ
  pub buf : List ℕ
  pub rest : List ℕ
  pub num : ℕ
  pub i : ℕ

-- The buffers for the next update; `none` where the function returns.
unfoldable pub refill : ℕ → Reading → Option Reading
refill block_len r =
    if leb (r.i + 4) r.num
    then some r
    else if not (r.num == block_len) || ltb (length (take block_len r.rest)) 4
    then none
    else some (record {
      last_buf = r.buf;
      buf = buffer_update r.rest block_len;
      rest = drop block_len r.rest;
      num = length (take block_len r.rest);
      i = 0;
    })

-- `while(1)`
unfoldable pub roll : (fuel block_len : ℕ) → Reading → (csum offset : ℕ) → Hash (Unit {0})
roll zero block_len r csum offset = stop out_of_fuel
roll (suc fuel) block_len r csum offset = Hash.insert csum offset >> (elim (refill block_len r) [
  | none ↦ pure tt
  | some r' ↦ next_sum r'.last_buf r'.buf r'.i block_len csum >>= λ next.
      roll fuel block_len (record r' { i = r'.i + 4 }) next ((offset + 4) % word)
])

-- `WCsum_make_hash_sub`; a `fseek` beyond the end is no error and leaves nothing to read.
unfoldable pub make_hash_sub : List ℕ → (block_len init_offset : ℕ) → Hash (Unit {0})
make_hash_sub file block_len init_offset = do
  assert (not (block_len == 0) && block_len % 4 == 0)
  let buf = take block_len (drop init_offset file)
  let rest = drop block_len (drop init_offset file)
  let first : Reading = record {
    last_buf = [];
    buf = buf;
    rest = rest;
    num = block_len;
    i = block_len;
  }
  if ltb (length buf) block_len
      then pure tt
      else lift (wc_sum_get schar buf block_len) >>= λ csum.
          roll (suc (length file)) block_len first csum init_offset

unfoldable pub make_hash : List ℕ → (block_len : ℕ) → Hash (Unit {0})
make_hash file block_len = do
  Hash.create
  make_hash_sub file block_len 0
  make_hash_sub file block_len 1
  make_hash_sub file block_len 2
  make_hash_sub file block_len 3
