-- ===== src/Checksum/Window/Table.antt =====
-- `WCsum_make_hash` of version-1/checksum.c as a whole, with `hash_find`.
use cryptar.Prelude.{
  ℕ, zero, suc, ◌+◌, ◌*◌, ◌%◌, ◌^◌, ◌≤◌, ◌<◌, ◌≡◌, refl, sym, ap, ◌∙◌, none, List, [], ◌∷◌, ◌++◌,
  length, take, drop, length-drop, length-take, take-append-drop, take-all, drop-nil, arith, ok,
  fault, Result, pure, ◌>>◌, run_next, le→not_ltb, lt→ltb, ne→not_==, eq→==, word,
}
use native.Mathlib.Decide.{dec_lt}
use cryptar.Hash
use cryptar.Hash.{Hash, HashState}
use cryptar.Hash.Laws.{Log, insert_all, first_value, find-insert_all}
use cryptar.Checksum.{schar}
use cryptar.Checksum.Weak.{wc_sum_get-checksum}
use cryptar.Checksum.Window.{Reading, roll, make_hash_sub, make_hash}
use cryptar.Checksum.Window.Windows.{sum_of, windows, Tracks, Refilled, refill-none, refill-some}
use cryptar.Checksum.Window.Step.{four_of, step-Tracks, next_sum-run}

windows-short :
    (fuel block_len : ℕ) (bytes : List ℕ) (offset : ℕ)
    → length bytes < block_len
    → windows fuel block_len bytes offset ≡ []
unfolding windows
windows-short zero block_len bytes offset h = refl
windows-short (suc fuel) block_len bytes offset h = rw (lt→ltb (length bytes) block_len h) refl

windows-long :
    (fuel block_len : ℕ) (bytes : List ℕ) (offset : ℕ)
    → block_len ≤ length bytes
    → windows (suc fuel) block_len bytes offset
      ≡ (sum_of (take block_len bytes), offset) ∷ windows fuel block_len (drop 4 bytes) (offset + 4)
unfolding windows
windows-long fuel block_len bytes offset h = rw (le→not_ltb (length bytes) block_len h) refl

-- One more turn of the loop, from the run of the others.
turn :
    {block_len : ℕ} {r r' : Reading} {bytes : List ℕ} (m fuel offset : ℕ) (s : HashState)
    → Refilled block_len r bytes r'
    → block_len ≡ 4 * suc m
    → block_len < 2 ^ 16
    → (Tracks block_len (record r' { i = r'.i + 4 }) (drop 4 bytes))
      × (roll (suc fuel) block_len r (sum_of (take block_len bytes)) offset s
          ≡ (Hash.insert (sum_of (take block_len bytes)) offset
                >> roll fuel block_len
                    (record r' { i = r'.i + 4 })
                    (sum_of (take block_len (drop 4 bytes)))
                    ((offset + 4) % word))
              s)
unfolding roll
turn {block_len} {r} {r'} {bytes} m fuel offset s q four small =
    let (a, b, c, d, t, old) =
      four_of (drop r'.i r'.last_buf) (omega (arith, q.tracks.left, q.tracks.arrived, q.room)) in
    let (e, f, g, h, u, new) =
      four_of (drop r'.i r'.buf)
        (omega (arith, q.tracks.size, q.tracks.arrived, q.room, length-drop r'.i r'.buf)) in
    let rest : ℕ → Hash (Unit {0}) =
      λ next. roll fuel block_len (record r' { i = r'.i + 4 }) next ((offset + 4) % word) in
    (
      step-Tracks q.tracks q.room a b c d e f g h t u old new,
      rw q.run (
          ap (λ k. (Hash.insert (sum_of (take block_len bytes)) offset >> k) s)
            (λ i s'.
              run_next (next_sum-run q.tracks q.room a b c d e f g h t u old new m s' four small i)
                rest)),
    )

-- The loop inserts every window that is left.
roll-windows :
    (fuel m offset : ℕ) (s : HashState) {block_len : ℕ} {r : Reading} {bytes : List ℕ}
    → Tracks block_len r bytes
    → block_len ≡ 4 * suc m
    → block_len < 2 ^ 16
    → block_len ≤ length bytes
    → length bytes < block_len + 4 * fuel
    → offset + length bytes < 2 ^ 32
    → roll fuel block_len r (sum_of (take block_len bytes)) offset s
      ≡ insert_all (windows fuel block_len bytes offset) s
roll-windows zero m offset s p four small long enough low = absurd (omega arith)
roll-windows (suc fuel) m offset s {block_len} {r} {bytes} p four small long enough low =
    elim (dec_lt (length bytes) (block_len + 4)) [
      | yes short ↦ last_turn short
      | no more ↦
          (let (r', q) = refill-some p (omega arith) (omega arith) (omega arith) in
            let (tracks, run) = turn m fuel offset s q four small in
            let next : (offset + 4) % word ≡ offset + 4 = omega arith in
            run
            ∙ ap (λ k. (Hash.insert (sum_of (take block_len bytes)) offset >> k) s)
                (ap
                    (roll fuel block_len (record r' { i = r'.i + 4 })
                      (sum_of (take block_len (drop 4 bytes))))
                    next
                  ∙ λ i s'.
                      roll-windows fuel m (offset + 4) s' tracks four small
                        (omega (arith, length-drop 4 bytes)) (omega (arith, length-drop 4 bytes))
                        (omega (arith, length-drop 4 bytes)) i)
            ∙ sym (inserted s))
    ]
  where
    inserted :
        (s' : HashState)
        → insert_all (windows (suc fuel) block_len bytes offset) s'
          ≡ (Hash.insert (sum_of (take block_len bytes)) offset
                >> insert_all (windows fuel block_len (drop 4 bytes) (offset + 4)))
              s'
    inserted s' =
        unfold insert_all in
        ap (λ l. insert_all l s') (windows-long fuel block_len bytes offset long)

    last_turn :
        length bytes < block_len + 4
        → roll (suc fuel) block_len r (sum_of (take block_len bytes)) offset s
          ≡ insert_all (windows (suc fuel) block_len bytes offset) s
    last_turn short =
        let stops : roll (suc fuel) block_len r (sum_of (take block_len bytes)) offset s
            ≡ (Hash.insert (sum_of (take block_len bytes)) offset >> pure tt) s =
          unfold roll in rw (refill-none p (omega arith) (omega arith) short) refl in
        let none_left : insert_all (windows fuel block_len (drop 4 bytes) (offset + 4)) ≡ pure tt =
          unfold insert_all in
          ap insert_all (
            windows-short fuel block_len (drop 4 bytes) (offset + 4)
              (omega (arith, length-drop 4 bytes))) in
        stops
        ∙ ap (λ k. (Hash.insert (sum_of (take block_len bytes)) offset >> k) s) (sym none_left)
        ∙ sym (inserted s)

-- The buffers as the function first fills them.
abbrev first_reading : ℕ → List ℕ → Reading
first_reading block_len bytes = record {
  last_buf = [];
  buf = take block_len bytes;
  rest = drop block_len bytes;
  num = block_len;
  i = block_len;
}

first-Tracks :
    (block_len : ℕ) (bytes : List ℕ)
    → block_len % 4 ≡ 0
    → block_len ≤ length bytes
    → Tracks block_len (first_reading block_len bytes) bytes
first-Tracks block_len bytes four long = record {
  left = ap length (drop-nil block_len) ∙ omega arith;
  size = omega (arith, length-take block_len bytes);
  place = omega arith;
  arrived = omega arith;
  whole = four;
  ended = λ less. absurd (omega arith);
  all = sym (
      rw
        (
          drop-nil block_len,
          take-all block_len (take block_len bytes) (omega (arith, length-take block_len bytes)),
        )
        (take-append-drop block_len bytes));
}

-- The table of one start.
make_hash_sub-windows :
    (file : List ℕ) (m init_offset : ℕ) (s : HashState)
    → 4 * suc m < 2 ^ 16
    → length file + 4 < 2 ^ 32
    → init_offset < 4
    → make_hash_sub file (4 * suc m) init_offset s
      ≡ insert_all (windows (suc (length file)) (4 * suc m) (drop init_offset file) init_offset) s
unfolding make_hash_sub
make_hash_sub-windows file m init_offset s small low start =
    let block_len : ℕ = 4 * suc m in
    let bytes : List ℕ = drop init_offset file in
    let size = length-take block_len bytes in
    let left = length-drop init_offset file in
    elim (dec_lt (length (take block_len bytes)) block_len) [
      | yes short ↦
          rw
            (
              ne→not_== block_len 0 (omega arith),
              eq→== (block_len % 4) 0 (omega arith),
              lt→ltb (length (take block_len bytes)) block_len short,
              windows-short (suc (length file)) block_len bytes init_offset (omega (arith, size)),
            )
            (unfold insert_all in refl)
      | no long ↦
          rw
            (
              ne→not_== block_len 0 (omega arith),
              eq→== (block_len % 4) 0 (omega arith),
              le→not_ltb (length (take block_len bytes)) block_len (omega arith),
              wc_sum_get-checksum schar (suc m) (take block_len bytes) (omega (arith, size)) small,
            )
            (roll-windows (suc (length file)) m init_offset s
              (first-Tracks block_len bytes (omega arith) (omega (arith, size))) refl small
              (omega (arith, size)) (omega (arith, left)) (omega (arith, left)))
    ]

run_next-append :
    (x : Result (Unit {0} × HashState)) (xs ys : Log)
    → ((s : HashState) → (insert_all xs >> insert_all ys) s ≡ insert_all (xs ++ ys) s)
    → run_next (run_next x (λ _. insert_all xs)) (λ _. insert_all ys)
      ≡ run_next x (λ _. insert_all (xs ++ ys))
run_next-append (ok (u, s)) xs ys h = h s
run_next-append (fault e) xs ys h = refl

insert_all-append :
    (xs ys : Log) (s : HashState) → (insert_all xs >> insert_all ys) s ≡ insert_all (xs ++ ys) s
unfolding insert_all
insert_all-append [] ys s = refl
insert_all-append ((key, value) ∷ xs) ys s =
    run_next-append (Hash.insert key value s) xs ys (λ s'. insert_all-append xs ys s')

-- The windows that start at the offsets that are `start` modulo four.
abbrev pub windows_from : List ℕ → (block_len start : ℕ) → Log
windows_from file block_len start = windows (suc (length file)) block_len (drop start file) start

abbrev pub all_windows : List ℕ → (block_len : ℕ) → Log
all_windows file block_len =
    windows_from file block_len 0
    ++ (windows_from file block_len 1
        ++ (windows_from file block_len 2 ++ windows_from file block_len 3))

starts :
    (file : List ℕ) (m : ℕ)
    → 4 * suc m < 2 ^ 16
    → length file + 4 < 2 ^ 32
    → (start : ℕ) → start < 4
    → make_hash_sub file (4 * suc m) start ≡ insert_all (windows_from file (4 * suc m) start)
starts file m small low start h i s = make_hash_sub-windows file m start s small low h i

make_hash-insert_all :
    (file : List ℕ) (m : ℕ)
    → 4 * suc m < 2 ^ 16
    → length file + 4 < 2 ^ 32
    → make_hash file (4 * suc m) ≡ (Hash.create >> insert_all (all_windows file (4 * suc m)))
unfolding make_hash
make_hash-insert_all file m small low =
    let from : ℕ → Log = windows_from file (4 * suc m) in
    let join : (xs ys : Log) → (insert_all xs >> insert_all ys) ≡ insert_all (xs ++ ys) =
      λ xs ys i s. insert_all-append xs ys s i in
    rw
      (
        starts file m small low 0 (omega arith),
        starts file m small low 1 (omega arith),
        starts file m small low 2 (omega arith),
        starts file m small low 3 (omega arith),
      )
      (ap (λ k. Hash.create >> (insert_all (from 0) >> (insert_all (from 1) >> k)))
          (join (from 2) (from 3))
        ∙ ap (λ k. Hash.create >> (insert_all (from 0) >> k)) (join (from 1) (from 2 ++ from 3))
        ∙ ap (λ k. Hash.create >> k) (join (from 0) (from 1 ++ (from 2 ++ from 3))))

-- For a file shorter than 2 ^ 32 - 4 bytes, a block length that is a positive multiple of four below
-- 2 ^ 16, and no table before, `WCsum_make_hash` succeeds, its loop ends and no check of a rolled checksum
-- fails; a lookup then gives the offset of the first window, in the order of the four passes, whose
-- checksum agrees with the key in the low 16 bits. A plain `char` has a sign.
pub make_hash-find :
    (file : List ℕ) (m key : ℕ) (h : HashState)
    → 4 * suc m < 2 ^ 16
    → length file + 4 < 2 ^ 32
    → h.hash_table ≡ none
    → (h' : HashState) × (make_hash file (4 * suc m) h ≡ ok (tt, h'))
      × (Hash.find key h' ≡ ok (first_value key (all_windows file (4 * suc m)), h'))
make_hash-find file m key h small low none_yet =
    let (h', run, found, _) = find-insert_all h (all_windows file (4 * suc m)) key none_yet in
    (h', ap (λ f. f h) (make_hash-insert_all file m small low) ∙ run, found)
