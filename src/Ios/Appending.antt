-- ===== src/Ios/Appending.antt =====
-- `ios_append` of version-1/ios.c on valid buffers.
use cryptar.Prelude.{
  ℕ, ◌+◌, ◌%◌, ◌^◌, ◌≤◌, ◌<◌, ◌≡◌, refl, sym, ◌∙◌, ap, List, [], ◌++◌, length, arith, lt→not_leb,
  ne→not_==, length-drop, length-append, drop-append_le, append-nil, ok, ◌∷◌,
}
use cryptar.Ios.{IosBuf, compact, growth, grow, reserve, write_at_end, append}
use cryptar.Ios.Valid.{IsValid, contents}

-- `r` serves as `ios` for an append of `n` bytes.
record Reserved (ios : IosBuf) (n : ℕ) (r : IosBuf) : Type 0 where
  valid : IsValid r
  same : contents r ≡ contents ios
  room : r.len + n ≤ r.alloc_len
  shorter : r.len ≤ ios.len

record Compacted (ios r : IosBuf) : Type 0 where
  valid : IsValid r
  same : contents r ≡ contents ios
  at_front : r.read_ptr ≡ 0
  kept : r.alloc_len ≡ ios.alloc_len
  shorter : r.len ≤ ios.len

compact-Compacted : {ios : IosBuf} → IsValid ios → Compacted ios (compact ios)
unfolding compact
compact-Compacted {ios} v = ground (arith, length-drop ios.read_ptr ios.buf)

grow-Reserved :
    {ios : IosBuf} (n size : ℕ)
    → IsValid ios
    → ios.len + n ≤ size
    → size < 2 ^ 32
    → Reserved ios n (grow size ios)
unfolding grow
grow-Reserved {ios} n size v fits small = ground (arith, compact-Compacted v)

reserve-Reserved :
    {ios : IosBuf} (n : ℕ) → IsValid ios → ios.len + n ≤ 2 ^ 30 → Reserved ios n (reserve n ios)
unfolding reserve
reserve-Reserved {ios} n v fits =
    ground (arith, grow-Reserved n (growth ((ios.len + n) % 2 ^ 32)) v)

-- What an append of `bytes` to `ios` leaves.
pub record Appended (ios : IosBuf) (bytes : List ℕ) (r : IosBuf) : Type 0 where
  pub valid : IsValid r
  pub added : contents r ≡ contents ios ++ bytes
  pub grown : r.len ≤ ios.len + length bytes

write_at_end-Appended :
    {ios r : IosBuf} (bytes : List ℕ)
    → Reserved ios (length bytes) r
    → ios.len + length bytes ≤ 2 ^ 30
    → (r' : IosBuf) × (write_at_end bytes r ≡ ok (tt, r')) × Appended ios bytes r'
unfolding write_at_end
write_at_end-Appended {ios} {r} bytes h fits = (
  record r { buf = r.buf ++ bytes; len = r.len + length bytes },
  ground arith,
  record {
    valid = omega (arith, length-append r.buf bytes, h.valid.measured, h.room);
    added = drop-append_le r.read_ptr r.buf bytes (omega arith) ∙ ap (λ l. l ++ bytes) h.same;
    grown = omega arith;
  },
)

-- An append to a valid buffer succeeds within 2 ^ 30 bytes: it is no access out of bounds, whatever was
-- read before, it leaves the unread bytes followed by the new ones, and it keeps the invariant.
pub append_lem :
    {ios : IosBuf} (bytes : List ℕ)
    → IsValid ios
    → ios.len + length bytes ≤ 2 ^ 30
    → (r : IosBuf) × (append bytes ios ≡ ok (tt, r)) × Appended ios bytes r
unfolding append
append_lem {ios} [] v fits =
    (ios, refl, record { valid = v; added = sym (append-nil (contents ios)); grown = omega arith })
append_lem {ios} (b ∷ bs) v fits =
    let (r, e, a) =
      write_at_end-Appended (b ∷ bs) (reserve-Reserved (length (b ∷ bs)) v fits) fits in
    (
      r,
      rw
          (
            lt→not_leb (2 ^ 31) (length (b ∷ bs)) (omega arith),
            ne→not_== (length (b ∷ bs)) 0 (omega arith),
          )
          e,
      a,
    )
