-- ===== src/Checksum/Window/Step.antt =====
-- The loop of `WCsum_make_hash_sub` of version-1/checksum.c: a single turn.
use Prim.Native.Nat.{min}
use cryptar.Prelude.{
  take-append_le, ℕ, zero, suc, ◌+◌, ◌-◌, ◌*◌, ◌^◌, ◌≤◌, ◌<◌, ◌≡◌, refl, sym, ap, ◌∙◌, List, [],
  ◌∷◌, ◌++◌, length, take, drop, length-append, length-take, drop-drop, take-all, append_assoc,
  arith, ok, fault, Result, eq→==,
}
use cryptar.Hash.{HashState}
use cryptar.Checksum.{schar, wc_sum_get, wc_sum_update, signed_word}
use cryptar.Checksum.Weak.{wc_sum_get-checksum}
use cryptar.Checksum.Rolling.{wc_sum_update-wc_sum_get}
use cryptar.Checksum.Window.{verify, next_sum, Reading}
use cryptar.Checksum.Window.Windows.{sum_of, Tracks, take-append_more, take-take}

pub four_of : (l : List ℕ) → 4 ≤ length l → (a b c d : ℕ) × (t : List ℕ) × (l ≡ a ∷ b ∷ c ∷ d ∷ t)
four_of [] h = absurd (omega arith)
four_of (a ∷ []) h = absurd (omega arith)
four_of (a ∷ b ∷ []) h = absurd (omega arith)
four_of (a ∷ b ∷ c ∷ []) h = absurd (omega arith)
four_of (a ∷ b ∷ c ∷ d ∷ t) h = (a, b, c, d, t, refl)

nil_take : (n : ℕ) → take n [] ≡ (let none_left : List ℕ = [] in none_left)
nil_take zero = refl
nil_take (suc n) = refl

take-plus : (n k : ℕ) (l : List ℕ) → take (n + k) l ≡ take n l ++ take k (drop n l)
take-plus zero k l = ap (λ m. take m l) (let e : 0 + k ≡ k = omega arith in e)
take-plus (suc n) k [] = nil_take (suc n + k) ∙ sym (nil_take k)
take-plus (suc n) k (x ∷ l) =
    ap (λ m. take m (x ∷ l)) (let e : suc n + k ≡ suc (n + k) = omega arith in e)
    ∙ ap (λ m. x ∷ m) (take-plus n k l)

abbrev of_ok : Result ℕ → ℕ
of_ok (ok n) = n
of_ok (fault e) = 0

wc_sum_update-front :
    (a b c d e f g h : ℕ) (t u : List ℕ) (sum n : ℕ)
    → wc_sum_update (a ∷ b ∷ c ∷ d ∷ t) (e ∷ f ∷ g ∷ h ∷ u) sum n
      ≡ wc_sum_update (a ∷ b ∷ c ∷ d ∷ []) (e ∷ f ∷ g ∷ h ∷ []) sum n
unfolding wc_sum_update signed_word
wc_sum_update-front a b c d e f g h t u sum n = refl

-- The current window and the next one, in terms of the two buffers.
module _ {block_len : ℕ} {r : Reading} {bytes : List ℕ} (p : Tracks block_len r bytes)
    (room : r.i + 4 ≤ r.num) (a b c d e f g h : ℕ) (t u : List ℕ)
    (old : drop r.i r.last_buf ≡ a ∷ b ∷ c ∷ d ∷ t) (new : drop r.i r.buf ≡ e ∷ f ∷ g ∷ h ∷ u) where
  abbrev middle : List ℕ
  middle = t ++ take r.i r.buf

  length-t : length t + 4 ≡ block_len - r.i
  length-t = omega (arith, sym (ap length old) ∙ p.left)

  length-middle : length middle + 4 ≡ block_len
  length-middle =
      omega (
        arith,
        length-t,
        length-append t (take r.i r.buf),
        length-take r.i r.buf,
        p.size,
        p.arrived,
      )

  all-split : bytes ≡ (a ∷ b ∷ c ∷ d ∷ t) ++ (take r.num r.buf ++ r.rest)
  all-split = p.all ∙ ap (λ l. l ++ (take r.num r.buf ++ r.rest)) old

  take-buf : (n : ℕ) → n ≤ r.num → take n (take r.num r.buf ++ r.rest) ≡ take n r.buf
  take-buf n small =
      take-append_le n (take r.num r.buf) r.rest
        (omega (arith, length-take r.num r.buf, p.size, p.arrived))
      ∙ take-take n r.num r.buf small

  window : take block_len bytes ≡ a ∷ b ∷ c ∷ d ∷ middle
  window =
      ap (take block_len) all-split
      ∙ take-append_more block_len r.i (a ∷ b ∷ c ∷ d ∷ t) (take r.num r.buf ++ r.rest)
          (omega (arith, length-t, p.arrived))
      ∙ ap (λ l. (a ∷ b ∷ c ∷ d ∷ t) ++ l) (take-buf r.i p.place)

  take-next : take (r.i + 4) r.buf ≡ take r.i r.buf ++ (e ∷ f ∷ g ∷ h ∷ [])
  take-next = take-plus r.i 4 r.buf ∙ ap (λ l. take r.i r.buf ++ take 4 l) new

  window_next : take block_len (drop 4 bytes) ≡ middle ++ (e ∷ f ∷ g ∷ h ∷ [])
  window_next =
      ap (λ l. take block_len (drop 4 l)) all-split
      ∙ take-append_more block_len (r.i + 4) t (take r.num r.buf ++ r.rest)
          (omega (arith, length-t, p.arrived))
      ∙ ap (λ l. t ++ l) (take-buf (r.i + 4) room ∙ take-next)
      ∙ sym (append_assoc t (take r.i r.buf) (e ∷ f ∷ g ∷ h ∷ []))

  tail : drop (r.i + 4) r.last_buf ≡ t
  tail = sym (drop-drop 4 r.i r.last_buf) ∙ ap (drop 4) old

  pub step-Tracks : Tracks block_len (record r { i = r.i + 4 }) (drop 4 bytes)
  step-Tracks = record {
    left = ap length tail ∙ omega (arith, length-t);
    size = p.size;
    place = room;
    arrived = p.arrived;
    whole = omega (arith, p.whole);
    ended = p.ended;
    all = ap (drop 4) all-split ∙ ap (λ l. l ++ (take r.num r.buf ++ r.rest)) (sym tail);
  }

  -- The sums of the two windows and the update between them.
  update-run :
      (m : ℕ)
      → block_len ≡ 4 * suc m
      → block_len < 2 ^ 16
      → (wc_sum_update
            (drop r.i r.last_buf)
            (drop r.i r.buf)
            (sum_of (take block_len bytes))
            block_len
          ≡ ok (sum_of (take block_len (drop 4 bytes))))
        × (wc_sum_get schar (take block_len (drop 4 bytes)) block_len
            ≡ ok (sum_of (take block_len (drop 4 bytes))))
  update-run m four small =
      let new4 : List ℕ = e ∷ f ∷ g ∷ h ∷ [] in
      let old4 : List ℕ = a ∷ b ∷ c ∷ d ∷ [] in
      let (sum, next, e1, e2, e3) =
        wc_sum_update-wc_sum_get m a b c d e f g h middle (omega (arith, length-middle))
          (omega arith) in
      let g1 =
        wc_sum_get-checksum schar (suc m) (a ∷ b ∷ c ∷ d ∷ middle) (omega (arith, length-middle))
          (omega arith) in
      let g2 =
        wc_sum_get-checksum schar (suc m) (middle ++ new4)
          (omega (arith, length-middle, length-append middle new4)) (omega arith) in
      let sum-eq : sum ≡ sum_of (a ∷ b ∷ c ∷ d ∷ middle) = ap of_ok (sym e1 ∙ g1) in
      let next-eq : next ≡ sum_of (middle ++ new4) = ap of_ok (sym e3 ∙ g2) in
      (
        ap (λ l. wc_sum_update l (drop r.i r.buf) (sum_of (take block_len bytes)) block_len) old
            ∙ ap
                (λ l. wc_sum_update (a ∷ b ∷ c ∷ d ∷ t) l (sum_of (take block_len bytes)) block_len)
                new
            ∙ wc_sum_update-front a b c d e f g h t u (sum_of (take block_len bytes)) block_len
            ∙ ap (λ s. wc_sum_update old4 new4 s block_len) (ap sum_of window ∙ sym sum-eq)
            ∙ ap (wc_sum_update old4 new4 sum) four
            ∙ e2
            ∙ ap ok (next-eq ∙ ap sum_of (sym window_next)),
        ap (λ l. wc_sum_get schar l block_len) window_next
            ∙ ap (wc_sum_get schar (middle ++ new4)) four
            ∙ g2
            ∙ ap (λ l. ok (sum_of l)) (sym window_next),
      )

  -- The block that `WCsum_verify` puts together is the next window.
  verified :
      take (min block_len (block_len - (r.i + 4))) (drop (r.i + 4) r.last_buf)
        ++ take (block_len - min block_len (block_len - (r.i + 4))) r.buf
      ≡ take block_len (drop 4 bytes)
  verified =
      let first : min block_len (block_len - (r.i + 4)) ≡ length t = omega (arith, length-t) in
      let second : block_len - length t ≡ r.i + 4 = omega (arith, length-t, p.arrived) in
      rw (first, second, tail, take-all (length t) t (omega arith), take-next, window_next)
        (sym (append_assoc t (take r.i r.buf) (e ∷ f ∷ g ∷ h ∷ [])))

  pub next_sum-run :
      (m : ℕ) (s : HashState)
      → block_len ≡ 4 * suc m
      → block_len < 2 ^ 16
      → next_sum r.last_buf r.buf r.i block_len (sum_of (take block_len bytes)) s
        ≡ ok (sum_of (take block_len (drop 4 bytes)), s)
  unfolding next_sum verify
  next_sum-run m s four small =
      let (update, check) = update-run m four small in
      let sum = sum_of (take block_len (drop 4 bytes)) in
      rw (update, verified, check, eq→== sum sum refl) refl
