-- ===== src/Checksum/Window/Windows.antt =====
-- The windows of a file and the buffers of `WCsum_make_hash_sub`, version-1/checksum.c.
use cryptar.Prelude.{
  ℕ, zero, suc, ◌+◌, ◌-◌, ◌%◌, ◌≤◌, ◌<◌, ◌≡◌, refl, sym, ap, ◌∙◌, none, some, List, [], ◌∷◌, ◌++◌,
  ltb, if◌then◌else◌, length, take, drop, length-append, length-take, length-drop, take-append,
  take-all, take-append-drop, arith, le→not_ltb, le→leb, lt→not_leb, eq→==,
}
use native.Mathlib.Decide.{dec_le}
use cryptar.Hash.Laws.{Log}
use cryptar.Checksum.{schar}
use cryptar.Checksum.Weak.{words, checksum}
use cryptar.Checksum.Window.{zero_bytes, buffer_update, Reading, refill}

-- The weak checksum of a block.
abbrev pub sum_of : List ℕ → ℕ
sum_of bytes = checksum (words schar bytes)

-- The windows of `block_len` bytes at every fourth byte, with their offsets.
unfoldable pub windows : (fuel block_len : ℕ) → List ℕ → (offset : ℕ) → Log
windows zero block_len bytes offset = []
windows (suc fuel) block_len bytes offset =
    let rest = windows fuel block_len (drop 4 bytes) (offset + 4) in
    if ltb (length bytes) block_len then [] else (sum_of (take block_len bytes), offset) ∷ rest

-- The buffers hold the file from the current window on, which is `bytes`.
pub record Tracks (block_len : ℕ) (r : Reading) (bytes : List ℕ) : Type 0 where
  pub left : length (drop r.i r.last_buf) ≡ block_len - r.i
  pub size : length r.buf ≡ block_len
  pub place : r.i ≤ r.num
  pub arrived : r.num ≤ block_len
  pub whole : r.i % 4 ≡ 0
  pub ended : r.num < block_len → length r.rest ≡ 0
  pub all : bytes ≡ drop r.i r.last_buf ++ (take r.num r.buf ++ r.rest)

length-zero_bytes : (n : ℕ) → length (zero_bytes n) ≡ n
length-zero_bytes zero = refl
length-zero_bytes (suc n) = omega (arith, length-zero_bytes n)

pub take-append_more :
    (n k : ℕ) (xs ys : List ℕ) → n ≡ length xs + k → take n (xs ++ ys) ≡ xs ++ take k ys
take-append_more n k [] ys h = ap (λ m. take m ys) (let e : n ≡ k = omega arith in e)
take-append_more zero k (x ∷ xs) ys h = absurd (omega arith)
take-append_more (suc n) k (x ∷ xs) ys h =
    ap (λ l. x ∷ l) (take-append_more n k xs ys (omega arith))

pub take-take : (n m : ℕ) (xs : List ℕ) → n ≤ m → take n (take m xs) ≡ take n xs
take-take zero m xs h = refl
take-take (suc n) zero xs h = absurd (omega arith)
take-take (suc n) (suc m) [] h = refl
take-take (suc n) (suc m) (x ∷ xs) h = ap (λ l. x ∷ l) (take-take n m xs (omega arith))

length-Tracks :
    {block_len : ℕ} {r : Reading} {bytes : List ℕ}
    → Tracks block_len r bytes
    → length bytes ≡ block_len - r.i + r.num + length r.rest
length-Tracks {block_len} {r} p =
    ap length p.all
    ∙ omega (
      arith,
      p.left,
      p.size,
      p.arrived,
      length-append (drop r.i r.last_buf) (take r.num r.buf ++ r.rest),
      length-append (take r.num r.buf) r.rest,
      length-take r.num r.buf,
    )

pub refill-none :
    {block_len : ℕ} {r : Reading} {bytes : List ℕ}
    → Tracks block_len r bytes
    → block_len % 4 ≡ 0
    → 0 < block_len
    → length bytes < block_len + 4
    → refill block_len r ≡ none
unfolding refill
refill-none {block_len} {r} p four pos short =
    ground
      (arith, length-Tracks p, p.place, p.arrived, p.whole, p.ended, length-take block_len r.rest)

-- The buffers after they were filled again where that was needed.
pub record Refilled (block_len : ℕ) (r : Reading) (bytes : List ℕ) (r' : Reading) : Type 0 where
  pub run : refill block_len r ≡ some r'
  pub tracks : Tracks block_len r' bytes
  pub room : r'.i + 4 ≤ r'.num

nil_of : (xs : List ℕ) → length xs ≡ 0 → xs ≡ []
nil_of [] h = refl
nil_of (x ∷ xs) h = absurd (omega arith)

pub refill-some :
    {block_len : ℕ} {r : Reading} {bytes : List ℕ}
    → Tracks block_len r bytes
    → block_len % 4 ≡ 0
    → 0 < block_len
    → block_len + 4 ≤ length bytes
    → (r' : Reading) × Refilled block_len r bytes r'
refill-some {block_len} {r} {bytes} p four pos long = elim (dec_le (r.i + 4) r.num) [
  | yes h ↦ (r, record { run = kept h; tracks = p; room = h })
  | no h ↦ (after, record { run = filled h; tracks = tracks h; room = omega (arith, plenty h) })
]
  where
    next : List ℕ
    next = take block_len r.rest

    after : Reading
    after = record {
      last_buf = r.buf;
      buf = buffer_update r.rest block_len;
      rest = drop block_len r.rest;
      num = length (take block_len r.rest);
      i = 0;
    }

    kept : r.i + 4 ≤ r.num → refill block_len r ≡ some r
    kept h = unfold refill in rw (le→leb (r.i + 4) r.num h) refl

    full : ¬ (r.i + 4 ≤ r.num) → (r.num ≡ block_len) × (r.i ≡ block_len)
    full h = (
      ground (arith, length-Tracks p, p.place, p.arrived, p.whole, p.ended),
      ground (arith, length-Tracks p, p.place, p.arrived, p.whole, p.ended),
    )

    plenty : ¬ (r.i + 4 ≤ r.num) → 4 ≤ length (take block_len r.rest)
    plenty h = ground (
      arith,
      length-Tracks p,
      p.place,
      p.arrived,
      p.whole,
      p.ended,
      full h,
      length-take block_len r.rest,
    )

    filled : ¬ (r.i + 4 ≤ r.num) → refill block_len r ≡ some after
    filled h =
        unfold refill in
        rw
          (
            lt→not_leb (r.i + 4) r.num (omega arith),
            eq→== r.num block_len ((full h).0),
            le→not_ltb (length (take block_len r.rest)) 4 (plenty h),
          )
          refl

    tracks : ¬ (r.i + 4 ≤ r.num) → Tracks block_len after bytes
    tracks h = record {
      left = omega (arith, p.size);
      size = omega (
        arith,
        length-append next (zero_bytes (block_len - length next)),
        length-zero_bytes (block_len - length next),
        length-take block_len r.rest,
      );
      place = omega arith;
      arrived = omega (arith, length-take block_len r.rest);
      whole = refl;
      ended = λ few. omega (arith, length-take block_len r.rest, length-drop block_len r.rest);
      all =
          p.all
          ∙ rw
              (
                nil_of (drop r.i r.last_buf) (omega (arith, p.left, full h)),
                take-all r.num r.buf (omega (arith, p.size, full h)),
              )
              (ap (λ l. r.buf ++ l)
                (sym (take-append-drop block_len r.rest)
                  ∙ ap (λ l. l ++ drop block_len r.rest)
                      (sym (
                        take-append (length next) next (zero_bytes (block_len - length next))
                          refl))));
    }
