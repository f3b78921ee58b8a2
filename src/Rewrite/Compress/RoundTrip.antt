-- ===== src/Rewrite/Compress/RoundTrip.antt =====
-- `compress` and `decompress` of src/compress.cpp.
use cryptar.Prelude.{
  ℕ, zero, suc, ◌*◌, ◌%◌, ◌^◌, ◌≤◌, ◌<◌, ◌≡◌, refl, ap, ◌∙◌, List, length, ok, arith, ltb,
  Bool-cases, inl, inr, ltb→lt, not_ltb→le, if◌then◌else◌, ne→not_==,
}
use cryptar.Rewrite.Compress.{
  BzLib, bz_ok, bz_outbuff_full, output_max_size, room_for, rounds, compress, decompress,
}

module _ (lib : BzLib) (text packed : List ℕ) where
  -- The call of bzip2 behind a text that was packed.
  packed_by :
      compress lib text ≡ ok packed
      → lib.compress_buffer (output_max_size (length text)) text ≡ bz_ok packed
  unfolding compress
  packed_by e = ground arith

  -- A hint that is not zero is the room.
  room_for_hint : (hint : ℕ) → 0 < hint → room_for lib hint packed ≡ hint
  room_for_hint hint h =
      ap (λ b. if b then 5 * length packed % 2 ^ 32 else hint) (ne→not_== hint 0 (omega arith))

  done :
      (fuel hint : ℕ)
      → lib.decompress_buffer (room_for lib hint packed) packed ≡ bz_ok text
      → decompress lib (suc fuel) packed hint ≡ ok text
  unfolding decompress
  done fuel hint e = rw (decompress, e) refl

  again :
      (fuel hint : ℕ)
      → lib.decompress_buffer (room_for lib hint packed) packed ≡ bz_outbuff_full
      → decompress lib (suc fuel) packed hint
        ≡ decompress lib fuel packed (2 * room_for lib hint packed % 2 ^ 32)
  unfolding decompress
  again fuel hint e = rw (decompress, e) refl

module _ (lib : BzLib) (text packed : List ℕ) (room : ℕ)
    (made : lib.compress_buffer room text ≡ bz_ok packed) (fits : length text ≤ 2 ^ 31) where
  fits_in :
      (fuel hint space : ℕ)
      → room_for lib hint packed ≡ space
      → length text ≤ space
      → decompress lib (suc fuel) packed hint ≡ ok text
  fits_in fuel hint space e large = done lib text packed fuel hint (
      ap (λ r. lib.decompress_buffer r packed) e
      ∙ lib.decompress-compress room space text packed made large)

  doubled : (space : ℕ) → space < length text → 2 * space % 2 ^ 32 ≡ 2 * space
  doubled space small = omega arith

  pow_twice : (space fuel : ℕ) → space * 2 ^ suc fuel ≡ 2 * space * 2 ^ fuel
  pow_twice space fuel = grind arith

  -- Each round doubles the room.
  decompress_room :
      (fuel hint space : ℕ)
      → room_for lib hint packed ≡ space
      → 0 < space
      → length text ≤ space * 2 ^ fuel
      → decompress lib (suc fuel) packed hint ≡ ok text
  decompress_room zero hint space e h enough = fits_in zero hint space e (omega arith)
  decompress_room (suc fuel) hint space e h enough = elim (Bool-cases (ltb space (length text))) [
    | inr large ↦ fits_in (suc fuel) hint space e (not_ltb→le space (length text) large)
    | inl short ↦
        (let small = ltb→lt space (length text) short in
          let twice = ap (λ r. 2 * r % 2 ^ 32) e ∙ doubled space small in
          again lib text packed (suc fuel) hint (
            ap (λ r. lib.decompress_buffer r packed) e
            ∙ lib.decompress_full room space text packed made small)
          ∙ decompress_room fuel (2 * room_for lib hint packed % 2 ^ 32) (2 * space)
              (room_for_hint lib text packed _ (omega (arith, twice)) ∙ twice) (omega arith)
              (omega (arith, pow_twice space fuel)))
  ]

-- A text of at most 2 ^ 29 bytes that was packed is unpacked again, with no hint in at most 33 calls that
-- double the room.
pub decompress-compress :
    (lib : BzLib) (text packed : List ℕ)
    → length text ≤ 2 ^ 29
    → compress lib text ≡ ok packed
    → decompress lib rounds packed 0 ≡ ok text
decompress-compress lib text packed short e =
    let made = packed_by lib text packed e in
    let room = output_max_size (length text) in
    let some_bytes = lib.packed_some room text packed made in
    let bounded = lib.packed_fits room text packed made in
    decompress_room lib text packed room made (omega arith) 32 0 (5 * length packed)
      (omega (arith, bounded)) (omega (arith, some_bytes)) (omega (arith, some_bytes))
