-- ===== src/Remote/Codec.antt =====
-- The byte form of archived blocks, version-1/remote.c: writing against reading.
use cryptar.Prelude.{
  ℕ, ◌+◌, ◌%◌, ◌^◌, ◌≤◌, ◌<◌, ◌≡◌, refl, sym, ap, ◌∙◌, some, List, [], ◌∷◌, ◌++◌, length, take, ok,
  arith, be16, ne→not_==, take-append-drop, length-take, drop, subst,
}
use cryptar.Ios
use cryptar.Ios.{IosBuf, Stream}
use cryptar.Ios.Valid.{IsValid, contents, advance, buffer_size-contents}
use cryptar.Ios.Codec.{Emits, append-Emits, >>-Emits, advance-IsValid, contents-advance}
use cryptar.Ios.Fields.{
  append_int8-Emits, append_int16-Emits, byte-Parses, bytes-Parses, buffer-some, read_int16-Parses,
}
use cryptar.Ios.Buffers.{Holds, buffer_of-Holds}
use cryptar.Remote.{DbArchive, to_stream, read_archive, from_stream}

abbrev pub archive_bytes : DbArchive → List ℕ
archive_bytes b = (b.version % 256 ∷ []) ++ (be16 (length b.ios.buf) ++ b.ios.buf)

pub to_stream-Emits :
    (b : DbArchive)
    → Ios.buffer_size b.ios ≡ length b.ios.buf
    → Emits (to_stream b) (archive_bytes b)
unfolding to_stream Ios.append_ios
to_stream-Emits b e = rw e (
    >>-Emits (append_int8-Emits b.version)
      (>>-Emits (append_int16-Emits (length b.ios.buf)) (append-Emits b.ios.buf)))

-- The archive that is read where the data was `bytes`.
abbrev pub archive_of : ℕ → ℕ → IosBuf → DbArchive
archive_of id version content = record { archive_id = id; version = version; ios = content }

-- What `from_stream` makes of a buffer with the bytes of an archive.
pub from_stream-archive_bytes :
    (id : ℕ) (b : DbArchive) (r : IosBuf)
    → b.version < 2 ^ 8
    → IsValid b.ios
    → 0 < b.ios.len % 2 ^ 16
    → IsValid r
    → contents r ≡ archive_bytes b
    → (r' content : IosBuf) × (from_stream id r ≡ ok (some (archive_of id b.version content), r'))
      × Holds (take (b.ios.len % 2 ^ 16) b.ios.buf) content
unfolding from_stream read_archive
from_stream-archive_bytes id b r hv vb pos v all =
    let bytes : List ℕ = b.ios.buf in
    let n : ℕ = length bytes % 2 ^ 16 in
    let first = (byte-Parses b.version hv).run r (be16 (length bytes) ++ bytes) v all in
    let v1 = advance-IsValid (b.version % 256 ∷ []) (be16 (length bytes) ++ bytes) v all in
    let c1 = contents-advance r (b.version % 256 ∷ []) (be16 (length bytes) ++ bytes) all in
    let second = (read_int16-Parses (length bytes)).run (advance 1 r) bytes v1 c1 in
    let v2 = advance-IsValid (be16 (length bytes)) bytes v1 c1 in
    let c2 =
      contents-advance (advance 1 r) (be16 (length bytes)) bytes c1
      ∙ sym (take-append-drop n bytes) in
    let cut : length (take n bytes) ≡ n = omega (arith, length-take n bytes) in
    let third : Ios.read_bytes n (advance 2 (advance 1 r))
        ≡ ok (take n bytes, advance n (advance 2 (advance 1 r))) =
      (bytes-Parses n (take n bytes) cut).run (advance 2 (advance 1 r)) (drop n bytes) v2 c2
      ∙ ap (λ m. ok (take n bytes, advance m (advance 2 (advance 1 r)))) cut in
    let (content, run, p) = buffer_of-Holds (take n bytes) (omega (arith, cut)) in
    (
      advance n (advance 2 (advance 1 r)),
      content,
      rw
          (
            buffer-some (b.version % 256) (be16 (length bytes) ++ bytes) v all,
            from_stream,
            first,
            second,
            third,
            ne→not_== n 0 (omega (arith, vb.measured)),
            run,
          )
          refl,
      subst (λ m. Holds (take (m % 2 ^ 16) bytes) content) vb.measured p,
    )

-- The data buffer of an archive that nothing was read from, as it is written.
pub whole_buffer :
    {ios : IosBuf} → IsValid ios → ios.read_ptr ≡ 0 → Ios.buffer_size ios ≡ length ios.buf
whole_buffer {ios} v start = buffer_size-contents v ∙ ap (λ p. length (drop p ios.buf)) start

-- An archived block whose data buffer has had nothing read from it is written to a buffer with
-- nothing unread. If the length of the data modulo 2 ^ 16 is not zero, the version and that many
-- bytes from the front of the data are read back.
pub archive_from_stream-to_stream :
    (id : ℕ) (b : DbArchive) {ios : IosBuf}
    → b.version < 2 ^ 8
    → IsValid b.ios
    → b.ios.read_ptr ≡ 0
    → 0 < b.ios.len % 2 ^ 16
    → IsValid ios
    → contents ios ≡ []
    → ios.len + 3 + b.ios.len ≤ 2 ^ 30
    → (r r' content : IosBuf) × (to_stream b ios ≡ ok (tt, r))
      × (from_stream id r ≡ ok (some (archive_of id b.version content), r'))
      × (contents content ≡ take (b.ios.len % 2 ^ 16) b.ios.buf)
archive_from_stream-to_stream id b {ios} hv vb start pos v empty fits =
    let (r, e, a) =
      (to_stream-Emits b (whole_buffer vb start)).run v (omega (arith, vb.measured)) in
    let all : contents r ≡ archive_bytes b = a.added ∙ ap (λ l. l ++ archive_bytes b) empty in
    let (r', content, run, p) = from_stream-archive_bytes id b r hv vb pos a.valid all in
    (r, r', content, e, run, p.unread_bytes)
