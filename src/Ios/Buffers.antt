-- ===== src/Ios/Buffers.antt =====
-- Whole buffers: what `ios_set_buffer` leaves in a new one, and what a library is handed.
use cryptar.Prelude.{
  ℕ, ◌^◌, ◌≤◌, ◌≡◌, sym, ap, ◌∙◌, List, [], ◌∷◌, length, ok, arith, and_then, take-all, append-nil,
}
use cryptar.Ios.{IosBuf, Stream, new, reset, set_buffer, buffer_of, written, parsed, unread}
use cryptar.Ios.Valid.{IsValid, contents, new-IsValid, buffer_size-contents}
use cryptar.Ios.Appending.{append_lem}
use cryptar.Ios.Codec.{Emits, Parses}
use cryptar.Ios.Fields.{buffer-some, buffer-none}

-- A buffer with exactly these bytes unread.
pub record Holds (bytes : List ℕ) (ios : IosBuf) : Type 0 where
  pub valid : IsValid ios
  pub unread_bytes : contents ios ≡ bytes

pub set_buffer-Holds :
    (bytes : List ℕ)
    → length bytes ≤ 2 ^ 30
    → (r : IosBuf) × (set_buffer bytes new ≡ ok (tt, r)) × Holds bytes r
unfolding set_buffer reset
set_buffer-Holds bytes h =
    let (r, e, a) = append_lem bytes new-IsValid (omega arith) in
    (r, e, record { valid = a.valid; unread_bytes = a.added })

pub buffer_of-Holds :
    (bytes : List ℕ)
    → length bytes ≤ 2 ^ 30
    → (r : IosBuf) × (buffer_of bytes ≡ ok r) × Holds bytes r
buffer_of-Holds bytes h =
    let (r, e, p) = set_buffer-Holds bytes h in (r, ap (λ x. and_then x (λ (_, ios). ok ios)) e, p)

pub written-Holds :
    {m : Stream (Unit {0})} {bytes : List ℕ}
    → Emits m bytes
    → length bytes ≤ 2 ^ 30
    → (r : IosBuf) × (written m ≡ ok r) × Holds bytes r
written-Holds p h =
    let (r, e, a) = p.run new-IsValid (omega arith) in
    (
      r,
      ap (λ x. and_then x (λ (_, ios). ok ios)) e,
      record { valid = a.valid; unread_bytes = a.added },
    )

pub parsed-Holds :
    {A : Type 0} {m : Stream A} {bytes : List ℕ} {a : A} {ios : IosBuf}
    → Parses m bytes a
    → Holds bytes ios
    → parsed m ios ≡ ok a
parsed-Holds {bytes} {ios} p h =
    ap (λ x. and_then x (λ (a, _). ok a))
      (p.run ios [] h.valid (h.unread_bytes ∙ sym (append-nil bytes)))

pub unread-Holds : (bytes : List ℕ) {ios : IosBuf} → Holds bytes ios → unread ios ≡ bytes
unfolding unread
unread-Holds [] h = rw (buffer-none h.valid h.unread_bytes, unread)
unread-Holds (b ∷ bs) {ios} h =
    rw
      (
        buffer-some b bs h.valid h.unread_bytes,
        unread,
        buffer_size-contents h.valid,
        h.unread_bytes,
      )
      (take-all (length (b ∷ bs)) (b ∷ bs) (omega arith))
