-- ===== src/Ios/Codec.antt =====
-- Serialisers that emit given bytes and parsers that accept them, with the rules that compose them.
-- A buffer of at most 2 ^ 30 bytes is always within the reach of the `guint32` arithmetic.
use cryptar.Prelude.{
  ℕ, ◌+◌, ◌^◌, ◌≤◌, ◌≡◌, refl, sym, ◌∙◌, ap, List, ◌++◌, length, drop, arith, ok, pure, ◌>>=◌, ◌>>◌,
  run_next, length-append, append_assoc, append-nil, [], drop-append, drop-drop,
}
use native.Mathlib.Nat.{add-zero}
use cryptar.Ios.{IosBuf, Stream, append}
use cryptar.Ios.Valid.{IsValid, contents, advance, length-contents}
use cryptar.Ios.Appending.{Appended, append_lem}

-- `m` appends exactly `bytes` to every valid buffer that has the room.
pub record Emits (m : Stream (Unit {0})) (bytes : List ℕ) : Type 0 where
  pub run :
      {ios : IosBuf}
      → IsValid ios
      → ios.len + length bytes ≤ 2 ^ 30
      → (r : IosBuf) × (m ios ≡ ok (tt, r)) × Appended ios bytes r

-- Where the unread bytes begin with `bytes`, `m` reads exactly these and returns `a`.
pub record Parses {A : Type 0} (m : Stream A) (bytes : List ℕ) (a : A) : Type 0 where
  pub run :
      (ios : IosBuf) (rest : List ℕ)
      → IsValid ios
      → contents ios ≡ bytes ++ rest
      → m ios ≡ ok (a, advance (length bytes) ios)

pub append-Emits : (bytes : List ℕ) → Emits (append bytes) bytes
append-Emits bytes = record { run = λ v fits. append_lem bytes v fits }

pub >>-Emits :
    {m k : Stream (Unit {0})} {bs cs : List ℕ} → Emits m bs → Emits k cs → Emits (m >> k) (bs ++ cs)
>>-Emits {m} {k} {bs} {cs} p q = record { run = both }
  where
    both :
        {ios : IosBuf}
        → IsValid ios
        → ios.len + length (bs ++ cs) ≤ 2 ^ 30
        → (r : IosBuf) × ((m >> k) ios ≡ ok (tt, r)) × Appended ios (bs ++ cs) r
    both {ios} v fits =
        let (r, e, a) = p.run v (omega (arith, length-append bs cs)) in
        let (r', e', a') = q.run a.valid (omega (arith, length-append bs cs, a.grown)) in
        (
          r',
          ap (λ x. run_next x (λ _. k)) e ∙ e',
          record {
            valid = a'.valid;
            added = a'.added ∙ ap (λ l. l ++ cs) a.added ∙ append_assoc (contents ios) bs cs;
            grown = omega (arith, a.grown, a'.grown, length-append bs cs);
          },
        )

-- What is left after a read that the contents allow.
pub advance-IsValid :
    {ios : IosBuf} (bs rest : List ℕ)
    → IsValid ios
    → contents ios ≡ bs ++ rest
    → IsValid (advance (length bs) ios)
advance-IsValid {ios} bs rest v e = omega (
  arith,
  v.measured,
  v.read_in,
  v.in_room,
  v.small,
  length-contents v,
  ap length e,
  length-append bs rest,
)

pub contents-advance :
    (ios : IosBuf) (bs rest : List ℕ)
    → contents ios ≡ bs ++ rest
    → contents (advance (length bs) ios) ≡ rest
contents-advance ios bs rest e =
    sym (drop-drop (length bs) ios.read_ptr ios.buf)
    ∙ ap (drop (length bs)) e
    ∙ drop-append (length bs) bs rest refl

pub >>=-Parses :
    {A B : Type 0} {m : Stream A} (k : A → Stream B) {bs cs : List ℕ} {a : A} {b : B}
    → Parses m bs a
    → Parses (k a) cs b
    → Parses (m >>= k) (bs ++ cs) b
>>=-Parses {A} {B} {m} k {bs} {cs} {a} {b} p q = record { run = both }
  where
    both :
        (ios : IosBuf) (rest : List ℕ)
        → IsValid ios
        → contents ios ≡ (bs ++ cs) ++ rest
        → (m >>= k) ios ≡ ok (b, advance (length (bs ++ cs)) ios)
    both ios rest v e =
        let e' : contents ios ≡ bs ++ (cs ++ rest) = e ∙ append_assoc bs cs rest in
        ap (λ x. run_next x k) (p.run ios (cs ++ rest) v e')
        ∙ q.run (advance (length bs) ios) rest (advance-IsValid bs (cs ++ rest) v e')
            (contents-advance ios bs (cs ++ rest) e')
        ∙ ap (λ n. ok (b, record ios { read_ptr = n })) (omega (arith, length-append bs cs))

-- The last read of a parser, with what the parser makes of it.
pub last-Parses :
    {A B : Type 0} {m : Stream A} {bs : List ℕ} {a : A} (f : A → B)
    → Parses m bs a
    → Parses (m >>= λ x. pure (f x)) bs (f a)
last-Parses {m} {a} f p = record {
  run = λ ios rest v e. ap (λ x. run_next x (λ x. pure (f x))) (p.run ios rest v e);
}

-- What a serialiser writes into a buffer with nothing unread, its parser reads back.
pub round_trip :
    {A : Type 0} {m : Stream (Unit {0})} {k : Stream A} {bs : List ℕ} {a : A} {ios : IosBuf}
    → Emits m bs
    → Parses k bs a
    → IsValid ios
    → contents ios ≡ []
    → ios.len + length bs ≤ 2 ^ 30
    → (r : IosBuf) × (m ios ≡ ok (tt, r)) × (k r ≡ ok (a, advance (length bs) r))
round_trip {bs} p q v empty fits =
    let (r, e, a) = p.run v fits in
    (r, e, q.run r [] a.valid (a.added ∙ ap (λ l. l ++ bs) empty ∙ sym (append-nil bs)))

pub pure-Emits : Emits (pure tt) []
pure-Emits = record {
  run = λ {ios} v fits. (
    ios,
    refl,
    record { valid = v; added = sym (append-nil (contents ios)); grown = omega arith },
  );
}

pub pure-Parses : {A : Type 0} (a : A) → Parses (pure a) [] a
pure-Parses a = record {
  run = λ ios rest v e. ap (λ n. ok (a, record ios { read_ptr = n })) (sym (add-zero ios.read_ptr));
}
