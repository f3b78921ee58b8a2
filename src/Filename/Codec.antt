-- ===== src/Filename/Codec.antt =====
-- The byte form of file records, version-1/filename.c: writing against reading.
use cryptar.Prelude.{
  pure, ◌>>=◌, ◌/◌, ℕ, ◌+◌, ◌%◌, ◌^◌, ◌≤◌, ◌<◌, ◌≡◌, ◌∙◌, sym, List, [], ◌∷◌, ◌++◌, some, arith,
  be16, be32, ok, ap, append-nil,
}
use mathlib.Core.Path.{subst}
use cryptar.Ios.{read_int32, IosBuf}
use cryptar.Ios.Valid.{IsValid, contents, advance}
use cryptar.Ios.Codec.{Emits, Parses, >>-Emits, >>=-Parses, last-Parses}
use cryptar.Ios.Fields.{
  append_int16-Emits, append_int32-Emits, word16-Parses, word32-Parses, buffer-some,
}
use cryptar.Filename.{DbFile, to_stream, from_stream, read_file}

abbrev pub file_bytes : DbFile → List ℕ
file_bytes f = be16 f.version ++ be32 f.file_id

pub to_stream-Emits : (f : DbFile) → Emits (to_stream f) (file_bytes f)
unfolding to_stream
to_stream-Emits f = >>-Emits (append_int16-Emits f.version) (append_int32-Emits f.file_id)

read_file-Parses :
    (f : DbFile)
    → f.version < 2 ^ 8
    → f.file_id < 2 ^ 32
    → Parses (read_file f.filename) (file_bytes f) (some f)
unfolding read_file
read_file-Parses f hv hi =
    subst (λ v. Parses (read_file f.filename) (file_bytes f) (some (record f { version = v })))
      (let e : f.version % 256 ≡ f.version = omega arith in e)
      (>>=-Parses
        (λ v. read_int32 >>= λ id. pure (some (record f { file_id = id; version = v % 256 })))
        (word16-Parses f.version (omega arith))
        (last-Parses (λ id. some (record f { file_id = id; version = f.version % 256 }))
          (word32-Parses f.file_id hi)))

-- Reading a buffer with exactly the bytes of a record.
pub from_stream-file_bytes :
    (f : DbFile) (ios : IosBuf)
    → f.version < 2 ^ 8
    → f.file_id < 2 ^ 32
    → IsValid ios
    → contents ios ≡ file_bytes f
    → from_stream f.filename ios ≡ ok (some f, advance 6 ios)
unfolding from_stream
from_stream-file_bytes f ios hv hi v e =
    rw (buffer-some (f.version / 256 % 256) (f.version % 256 ∷ be32 f.file_id) v e, from_stream)
      ((read_file-Parses f hv hi).run ios [] v (e ∙ sym (append-nil (file_bytes f))))

-- The record of a file whose fields fit their C types, written to a buffer with nothing unread, is
-- read back unchanged under the name that it was stored by.
pub file_from_stream-to_stream :
    (f : DbFile) {ios : IosBuf}
    → f.version < 2 ^ 8
    → f.file_id < 2 ^ 32
    → IsValid ios
    → contents ios ≡ []
    → ios.len + 6 ≤ 2 ^ 30
    → (r : IosBuf) × (to_stream f ios ≡ ok (tt, r))
      × (from_stream f.filename r ≡ ok (some f, advance 6 r))
file_from_stream-to_stream f {ios} hv hi v empty fits =
    let (r, e, a) = (to_stream-Emits f).run v fits in
    let all : contents r ≡ file_bytes f = a.added ∙ ap (λ l. l ++ file_bytes f) empty in
    (r, e, from_stream-file_bytes f r hv hi a.valid all)
