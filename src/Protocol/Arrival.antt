-- ===== src/Protocol/Arrival.antt =====
-- What the start of the dispatch of version-1/protocol.c takes from the read buffer, whatever has arrived.
use cryptar.Prelude.{
  ℕ, ◌+◌, ◌-◌, ◌≤◌, ◌≡◌, refl, sym, ap, ◌∙◌, ◌⊎◌, inl, inr, Option, none, some, List, [], ◌∷◌,
  length, drop, arith, Result, ok, fault, Fault, from_be32, le→leb, le→not_ltb, pure, lift, ◌>>=◌,
  ne→not_==, eq→==, lt→ltb, assertion_failed, take, ◌++◌, length-take, take-append-drop, subst,
}
use native.Mathlib.Decide.{dec_lt}
use cryptar.Ios
use cryptar.Ios.{IosBuf, Stream, read_int32, read_bytes, int32_at, load32, buffer_size}
use cryptar.Ios.Valid.{IsValid, contents, advance, buffer_size-contents, length-contents}
use cryptar.Ios.Codec.{advance-IsValid}
use cryptar.Ios.Fields.{buffer-some, bytes-Parses}
use cryptar.Protocol.{next_packet, read_packet, read_if_full}

-- The integer in front of a buffer.
pub record Front (ios : IosBuf) : Type 0 where
  pub value : ℕ
  pub at_front : int32_at 0 ios ≡ ok (value, ios)
  pub taken : read_int32 ios ≡ ok (value, advance 4 ios)

contents-Front :
    (ios : IosBuf) (bytes : List ℕ)
    → IsValid ios
    → contents ios ≡ bytes
    → 4 ≤ length bytes
    → Front ios
unfolding read_int32 int32_at load32
contents-Front ios (a ∷ b ∷ c ∷ d ∷ rest) v e h = record {
  value = from_be32 a b c d;
  at_front = rw (buffer-some a (b ∷ c ∷ d ∷ rest) v e, int32_at) refl;
  taken =
      rw
        (
          e,
          le→leb (ios.read_ptr + 4) ios.len
              (omega (arith, length-contents v, ap length e, v.read_in)),
        )
        refl;
}
contents-Front ios [] v e h = absurd (omega arith)
contents-Front ios (a ∷ []) v e h = absurd (omega arith)
contents-Front ios (a ∷ b ∷ []) v e h = absurd (omega arith)
contents-Front ios (a ∷ b ∷ c ∷ []) v e h = absurd (omega arith)

-- What a call of `next_packet` can do.
pub data Arrival (ios : IosBuf) : Type 0 where
  waits : next_packet ios ≡ ok (none, ios) → Arrival ios
  stops : (e : Fault) → next_packet ios ≡ fault e → Arrival ios
  takes :
      (cmd : ℕ) (packet rest : IosBuf)
      → next_packet ios ≡ ok (some (cmd, packet), rest)
      → IsValid rest
      → buffer_size rest + 5 ≤ buffer_size ios
      → Arrival ios

-- A run that stops, or gives a packet and leaves the buffer.
abbrev Ends : IosBuf → Result (Option (ℕ × IosBuf) × IosBuf) → Type 0
Ends ios r =
    ((e : Fault) × (r ≡ fault e))
    ⊎ ((cmd : ℕ) × (packet : IosBuf) × (r ≡ ok (some (cmd, packet), ios)))

with_command :
    (r : Result ℕ) (packet ios : IosBuf)
    → Ends ios ((lift r >>= λ cmd. pure (some (cmd, packet))) ios)
with_command (fault e) packet ios = inl (e, refl)
with_command (ok cmd) packet ios = inr (cmd, packet, refl)

-- The packet, once its bytes are out.
with_packet :
    (r : Result IosBuf) (parse : IosBuf → Result ℕ) (ios : IosBuf)
    → Ends ios ((lift r >>= λ packet. lift (parse packet) >>= λ cmd. pure (some (cmd, packet))) ios)
with_packet (fault e) parse ios = inl (e, refl)
with_packet (ok packet) parse ios = with_command (parse packet) packet ios

-- Bytes that are there are read.
read_bytes-run :
    (n : ℕ) (ios : IosBuf)
    → IsValid ios
    → n ≤ buffer_size ios
    → (read_bytes n ios ≡ ok (take n (contents ios), advance n ios))
      × IsValid (advance n ios)
      × (buffer_size (advance n ios) ≡ buffer_size ios - n)
read_bytes-run n ios v h =
    let c : List ℕ = contents ios in
    let cut : length (take n c) ≡ n = omega (arith, length-take n c, buffer_size-contents v) in
    let parts : c ≡ take n c ++ drop n c = sym (take-append-drop n c) in
    let valid : IsValid (advance n ios) =
      subst (λ m. IsValid (advance m ios)) cut (advance-IsValid (take n c) (drop n c) v parts) in
    let size : buffer_size (advance n ios) ≡ buffer_size ios - n = omega (
      arith,
      buffer_size-contents v,
      buffer_size-contents valid,
      length-contents v,
      length-contents valid,
    ) in
    (
      (bytes-Parses n (take n c) cut).run ios (drop n c) v parts
          ∙ ap (λ m. ok (take n c, advance m ios)) cut,
      valid,
      size,
    )

pub next_packet-Arrival : (ios : IosBuf) → IsValid ios → Arrival ios
unfolding next_packet read_if_full read_packet
next_packet-Arrival ios v = elim (dec_lt (buffer_size ios) 5) [
  | yes few ↦ waits (rw (lt→ltb (buffer_size ios) 5 few) refl)
  | no enough ↦
      let w : Front ios =
        contents-Front ios (contents ios) v refl (omega (arith, buffer_size-contents v)) in
      let five = le→not_ltb (buffer_size ios) 5 (omega arith) in
      elim (dec_lt (buffer_size ios - 4) w.value) [
        | yes part ↦ waits (rw (five, w.at_front, lt→ltb (buffer_size ios - 4) w.value part) refl)
        | no whole ↦
            let full = le→not_ltb (buffer_size ios - 4) w.value (omega arith) in
            let (_, v1, size1) = read_bytes-run 4 ios v (omega arith) in
            let (bytes, v2, size2) = read_bytes-run w.value (advance 4 ios) v1 (omega arith) in
            elim (dec_lt 0 w.value) [
              | no none_left ↦
                  stops assertion_failed
                    (rw (five, w.at_front, full, w.taken, eq→== w.value 0 (omega arith)) refl)
              | yes some_left ↦
                  elim (with_packet (Ios.buffer_of (take w.value (contents (advance 4 ios))))
                    (λ packet. Ios.parsed (Ios.copy_from 1 (Ios.at packet 0) >>= Ios.first) packet)
                    (advance w.value (advance 4 ios))) [
                      | inl (e, r) ↦ stops e (
                          rw
                            (
                              five,
                              w.at_front,
                              full,
                              w.taken,
                              ne→not_== w.value 0 (omega arith),
                              bytes,
                            )
                            r)
                      | inr (cmd, packet, r) ↦
                          takes cmd packet (advance w.value (advance 4 ios))
                            (rw
                              (
                                five,
                                w.at_front,
                                full,
                                w.taken,
                                ne→not_== w.value 0 (omega arith),
                                bytes,
                              )
                              r)
                            v2 (omega arith)
                    ]
            ]
      ]
]
