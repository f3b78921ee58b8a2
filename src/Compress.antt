-- ===== src/Compress.antt =====
-- version-1/compress.c: `do_compress` and `do_decompress` around zlib.
--
-- zlib is a parameter: `none` is a non-zero return, after which the program exits. CLEARTEXT is not
-- defined.
use cryptar.Prelude.{
  ℕ, Option, none, some, List, ◌==◌, if◌then◌else◌, Result, fault, assertion_failed, exited,
}
use cryptar.Ios
use cryptar.Ios.{IosBuf}

module _ (compress : List ℕ → Option (List ℕ)) where
  unfoldable pub do_compress : IosBuf → Result IosBuf
  do_compress ios_in = elim (compress (Ios.unread ios_in)) [
    | none ↦ fault exited
    | some packed ↦ Ios.buffer_of packed
  ]

module _ (uncompress : List ℕ → ℕ → Option (List ℕ)) where
  -- `orig_len` is the room for the output. A result of another length is only warned of.
  unfoldable pub do_decompress : IosBuf → ℕ → Result IosBuf
  do_decompress ios_in orig_len =
      if orig_len == 0
      then fault assertion_failed
      else elim (uncompress (Ios.unread ios_in) orig_len) [
        | none ↦ fault exited
        | some text ↦ Ios.buffer_of text
      ]
