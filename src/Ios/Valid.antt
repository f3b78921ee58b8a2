-- ===== src/Ios/Valid.antt =====
-- The invariant of a buffer and the bytes that are still to be read.
use cryptar.Prelude.{ℕ, ◌+◌, ◌-◌, ◌^◌, ◌≤◌, ◌<◌, ◌≡◌, refl, List, length, drop, arith}
use cryptar.Prelude.{length-drop}
use cryptar.Ios.{IosBuf, new, reset, buffer_size}

pub record IsValid (ios : IosBuf) : Type 0 where
  pub measured : length ios.buf ≡ ios.len
  pub read_in : ios.read_ptr ≤ ios.len
  pub in_room : ios.len ≤ ios.alloc_len
  pub small : ios.alloc_len < 2 ^ 32

abbrev pub contents : IosBuf → List ℕ
contents ios = drop ios.read_ptr ios.buf

pub new-IsValid : IsValid new
new-IsValid = omega arith

pub reset-IsValid : {ios : IosBuf} → IsValid ios → IsValid (reset ios)
unfolding reset
reset-IsValid v = record {
  measured = refl;
  read_in = omega arith;
  in_room = omega arith;
  small = v.small;
}

pub length-contents : {ios : IosBuf} → IsValid ios → length (contents ios) ≡ ios.len - ios.read_ptr
length-contents {ios} v = omega (arith, length-drop ios.read_ptr ios.buf, v.measured)

pub buffer_size-contents : {ios : IosBuf} → IsValid ios → buffer_size ios ≡ length (contents ios)
unfolding buffer_size
buffer_size-contents {ios} v = omega (arith, length-contents v)

-- After a read of `n` bytes.
abbrev pub advance : ℕ → IosBuf → IosBuf
advance n ios = record ios { read_ptr = ios.read_ptr + n }
