-- ===== src/Rewrite/Compress.antt =====
-- src/compress.h and src/compress.cpp: text packed by bzip2.
--
-- bzip2 is a parameter; the constructors of `BzResult` are the codes that its two functions return.
pub mod RoundTrip
use cryptar.Prelude.{
  ℕ, zero, suc, ◌+◌, ◌*◌, ◌/◌, ◌%◌, ◌^◌, ◌≤◌, ◌<◌, ◌≡◌, List, ◌==◌, if◌then◌else◌, length, Result,
  ok, fault, thrown, runtime_error, invalid_argument, length_error, domain_error, logic_error,
  out_of_fuel,
}

pub data BzResult : Type 0 where
  bz_ok : List ℕ → BzResult
  bz_config_error bz_param_error bz_mem_error bz_outbuff_full : BzResult
  bz_data_error bz_data_error_magic bz_unexpected_eof bz_other : BzResult

pub record BzLib : Type 0 where
  -- The room for the output, and the input.
  pub compress_buffer : ℕ → List ℕ → BzResult
  pub decompress_buffer : ℕ → List ℕ → BzResult
  pub packed_some :
      (room : ℕ) (text packed : List ℕ)
      → compress_buffer room text ≡ bz_ok packed
      → 0 < length packed
  pub packed_fits :
      (room : ℕ) (text packed : List ℕ)
      → compress_buffer room text ≡ bz_ok packed
      → length packed ≤ room
  pub decompress-compress :
      (room space : ℕ) (text packed : List ℕ)
      → compress_buffer room text ≡ bz_ok packed
      → length text ≤ space
      → decompress_buffer space packed ≡ bz_ok text
  pub decompress_full :
      (room space : ℕ) (text packed : List ℕ)
      → compress_buffer room text ≡ bz_ok packed
      → space < length text
      → decompress_buffer space packed ≡ bz_outbuff_full

-- `size * 1.06 + 600.5` without its fraction; below 2 ^ 32 the rounding of doubles does not change it.
abbrev pub output_max_size : ℕ → ℕ
output_max_size size = (106 * size + 60050) / 100

-- The calls that the model follows before it gives up.
abbrev pub rounds : ℕ
rounds = 33

module _ (lib : BzLib) where
  open lib use {compress_buffer, decompress_buffer}

  -- The codes that `compress` does not name are unexpected.
  unfoldable pub compress : List ℕ → Result (List ℕ)
  compress in_buf = elim (compress_buffer (output_max_size (length in_buf)) in_buf) [
    | bz_ok out_buf ↦ ok out_buf
    | bz_config_error ↦ fault (thrown runtime_error)
    | bz_param_error ↦ fault (thrown invalid_argument)
    | bz_mem_error ↦ fault (thrown length_error)
    | bz_outbuff_full ↦ fault (thrown length_error)
    | bz_data_error ↦ fault (thrown logic_error)
    | bz_data_error_magic ↦ fault (thrown logic_error)
    | bz_unexpected_eof ↦ fault (thrown logic_error)
    | bz_other ↦ fault (thrown logic_error)
  ]

  -- The room for the output, five times the input without a hint; both are an `unsigned int`.
  abbrev pub room_for : ℕ → List ℕ → ℕ
  room_for size_hint in_buf = if size_hint == 0 then 5 * length in_buf % 2 ^ 32 else size_hint

  -- With too little room it calls itself with twice as much; the first argument is fuel for that.
  unfoldable pub decompress : ℕ → List ℕ → (size_hint : ℕ) → Result (List ℕ)
  decompress zero in_buf size_hint = fault out_of_fuel
  decompress (suc fuel) in_buf size_hint =
      elim (decompress_buffer (room_for size_hint in_buf) in_buf) [
        | bz_ok out_buf ↦ ok out_buf
        | bz_config_error ↦ fault (thrown runtime_error)
        | bz_param_error ↦ fault (thrown invalid_argument)
        | bz_mem_error ↦ fault (thrown length_error)
        | bz_outbuff_full ↦ decompress fuel in_buf (2 * room_for size_hint in_buf % 2 ^ 32)
        | bz_data_error ↦ fault (thrown domain_error)
        | bz_data_error_magic ↦ fault (thrown domain_error)
        | bz_unexpected_eof ↦ fault (thrown domain_error)
        | bz_other ↦ fault (thrown logic_error)
      ]
