-- ===== src/Protocol/Framing.antt =====
-- The frame of a packet: `io_send_ios` of version-1/io.c against the start of the dispatch of
-- version-1/protocol.c.
use cryptar.Prelude.{
  ℕ, ◌+◌, ◌-◌, ◌%◌, ◌/◌, ◌^◌, ◌≤◌, ◌<◌, ◌≡◌, refl, sym, ap, ◌∙◌, some, List, [], ◌∷◌, ◌++◌, length,
  arith, be32, from_be32-be32, ok, pure, ◌>>=◌, le→not_ltb, ne→not_==, take-all, append-nil,
}
use cryptar.Ios
use cryptar.Ios.{
  IosBuf, Stream, append, append_int32, copy_from, int32_at, first, buffer_size, read_int32,
  read_bytes, load32,
}
use cryptar.Ios.Valid.{IsValid, contents, advance, buffer_size-contents}
use cryptar.Ios.Codec.{Emits, append-Emits, >>-Emits, advance-IsValid, contents-advance}
use cryptar.Ios.Fields.{append_int32-Emits, word32-Parses, bytes-Parses, buffer-some}
use cryptar.Ios.Buffers.{buffer_of-Holds}
use cryptar.Protocol.{io_send_ios, next_packet, read_packet, read_if_full}

copy_from_self :
    (bytes : List ℕ) (ios : IosBuf) → copy_from (length bytes) (some bytes) ios ≡ ok (bytes, ios)
unfolding copy_from
copy_from_self bytes ios =
    rw
      (
        le→not_ltb (length bytes) (length bytes) (omega arith),
        take-all (length bytes) bytes (omega arith),
      )
      refl

-- The frame of a packet that is not empty.
io_send_ios-Emits :
    {ios : IosBuf} (b : ℕ) (bs : List ℕ)
    → IsValid ios
    → contents ios ≡ b ∷ bs
    → Emits (io_send_ios ios) (be32 (length (b ∷ bs)) ++ (b ∷ bs))
unfolding io_send_ios
io_send_ios-Emits {ios} b bs v e =
    let size : buffer_size ios ≡ length (b ∷ bs) = buffer_size-contents v ∙ ap length e in
    let copied : copy_from (length (b ∷ bs)) (some (b ∷ bs)) ≡ pure (b ∷ bs) =
      λ i s. copy_from_self (b ∷ bs) s i in
    rw (buffer-some b bs v e, size, copied)
      (>>-Emits (append_int32-Emits (length (b ∷ bs))) (append-Emits (b ∷ bs)))

-- The length in front.
int32_at-front :
    (r : IosBuf) (n : ℕ) (rest : List ℕ)
    → IsValid r
    → contents r ≡ be32 n ++ rest
    → n < 2 ^ 32
    → int32_at 0 r ≡ ok (n, r)
unfolding int32_at load32
int32_at-front r n rest v e small =
    rw
      (
        buffer-some (n / 2 ^ 24 % 256) (n / 2 ^ 16 % 256 ∷ n / 256 % 256 ∷ n % 256 ∷ rest) v e,
        int32_at,
        from_be32-be32 n,
      )
      (ap (λ k. ok (k, r)) (omega arith))

-- The first byte of a packet.
command-run :
    (packet : IosBuf) (b : ℕ) (bs : List ℕ)
    → IsValid packet
    → contents packet ≡ b ∷ bs
    → Ios.parsed (copy_from 1 (Ios.at packet 0) >>= first) packet ≡ ok b
unfolding Ios.buffer copy_from first
command-run packet b bs v e =
    let found : Ios.at packet 0 ≡ some (b ∷ bs) = buffer-some b bs v e in
    rw (found, le→not_ltb (length (b ∷ bs)) 1 (omega arith)) refl

-- The packet that arrives.
read_packet-run :
    (r : IosBuf) (b : ℕ) (bs rest : List ℕ)
    → IsValid r
    → contents r ≡ be32 (length (b ∷ bs)) ++ ((b ∷ bs) ++ rest)
    → length (b ∷ bs) ≤ 2 ^ 30
    → (packet : IosBuf) × (read_packet r
        ≡ ok (some (b, packet), advance (length (b ∷ bs)) (advance 4 r)))
      × (contents packet ≡ b ∷ bs)
unfolding read_packet
read_packet-run r b bs rest v e small =
    let n : ℕ = length (b ∷ bs) in
    let len_run = (word32-Parses n (omega arith)).run r ((b ∷ bs) ++ rest) v e in
    let v1 = advance-IsValid (be32 n) ((b ∷ bs) ++ rest) v e in
    let c1 = contents-advance r (be32 n) ((b ∷ bs) ++ rest) e in
    let data_run = (bytes-Parses n (b ∷ bs) refl).run (advance 4 r) rest v1 c1 in
    let (packet, packet_run, p) = buffer_of-Holds (b ∷ bs) small in
    (
      packet,
      rw
          (
            len_run,
            ne→not_== n 0 (omega arith),
            data_run,
            packet_run,
            command-run packet b bs p.valid p.unread_bytes,
          )
          refl,
      p.unread_bytes,
    )

-- A packet of at most 2 ^ 29 bytes that is not empty, sent by `io_send_ios` to a buffer of at most 2 ^ 29
-- bytes with nothing unread, is found complete by the dispatch and taken out with its first byte as the
-- command and all of its bytes.
pub next_packet-io_send_ios :
    (b : ℕ) (bs : List ℕ) {ios out : IosBuf}
    → IsValid ios
    → contents ios ≡ b ∷ bs
    → length (b ∷ bs) + 4 ≤ 2 ^ 29
    → IsValid out
    → contents out ≡ []
    → out.len ≤ 2 ^ 29
    → (r r' packet : IosBuf) × (io_send_ios ios out ≡ ok (tt, r))
      × (next_packet r ≡ ok (some (b, packet), r'))
      × (contents packet ≡ contents ios)
unfolding next_packet read_if_full
next_packet-io_send_ios b bs {ios} {out} v e small vo empty low =
    let n : ℕ = length (b ∷ bs) in
    let (r, run, a) = (io_send_ios-Emits b bs v e).run vo (omega arith) in
    let all : contents r ≡ be32 n ++ (b ∷ bs) =
      a.added ∙ ap (λ l. l ++ (be32 n ++ (b ∷ bs))) empty in
    let size : buffer_size r ≡ 4 + n = buffer_size-contents a.valid ∙ ap length all ∙ omega arith in
    let all' : contents r ≡ be32 n ++ ((b ∷ bs) ++ []) =
      all ∙ ap (λ l. be32 n ++ l) (sym (append-nil (b ∷ bs))) in
    let (packet, taken, whole) = read_packet-run r b bs [] a.valid all' (omega arith) in
    (
      r,
      advance n (advance 4 r),
      packet,
      run,
      rw
          (
            le→not_ltb (buffer_size r) 5 (omega (arith, size)),
            int32_at-front r n (b ∷ bs) a.valid all (omega arith),
            le→not_ltb (buffer_size r - 4) n (omega (arith, size)),
          )
          taken,
      whole ∙ sym e,
    )
