-- ===== src/Tests/Buffers.antt =====
-- Buffers, checksums and the hash table at concrete inputs.
use cryptar.Prelude.{List, true, ℕ, ◌+◌, ◌%◌, ◌^◌, ◌≡◌, refl, some, [], ◌∷◌, ok, ◌>>◌, arith}
use cryptar.Ios
use cryptar.Ios.{IosBuf}
use cryptar.Ios.Valid.{IsValid}
use cryptar.Ios.Appending.{Appended, append_lem}
use cryptar.Hash.{HashState, initial, create, find}
use cryptar.Hash.Laws.{insert_all, first_value, find-insert_all}
use cryptar.Checksum.{schar, wc_sum_get, wc_sum_update}
use cryptar.Checksum.Window.{make_hash}
use cryptar.Checksum.Window.Table.{all_windows, make_hash-find}
use cryptar.Checksum.Rolling.{wc_sum_update-wc_sum_get}

-- A buffer of three bytes, two of them read, with no room left.
abbrev full : IosBuf
full = record { buf = 7 ∷ 8 ∷ 9 ∷ []; len = 3; read_ptr = 2; alloc_len = 3 }

full-IsValid : IsValid full
full-IsValid = omega arith

append_lem_example :
    (r : IosBuf) × (Ios.append (5 ∷ 6 ∷ []) full ≡ ok (tt, r)) × Appended full (5 ∷ 6 ∷ []) r
append_lem_example = append_lem (5 ∷ 6 ∷ []) full-IsValid (omega arith)

find-insert_all_example :
    (h' : HashState) × ((create >> insert_all ((5, 50) ∷ (6, 60) ∷ (5, 70) ∷ [])) initial
      ≡ ok (tt, h'))
    × (find (5 + 2 ^ 16) h' ≡ ok (first_value (5 + 2 ^ 16) ((5, 50) ∷ (6, 60) ∷ (5, 70) ∷ []), h'))
    × (h'.hash_entries ≡ 3 % 2 ^ 32)
find-insert_all_example =
    find-insert_all initial ((5, 50) ∷ (6, 60) ∷ (5, 70) ∷ []) (5 + 2 ^ 16) refl

abbrev used : HashState
used = record {
  hash_table = some (λ _. []);
  entry_pool = true;
  hash_entries = 0;
  hash_collisions = 0;
}

wc_sum_update-wc_sum_get_example :
    (sum next : ℕ) × (wc_sum_get schar (1 ∷ 2 ∷ 3 ∷ 200 ∷ 5 ∷ 6 ∷ 7 ∷ 8 ∷ []) 8 ≡ ok sum)
    × (wc_sum_update (1 ∷ 2 ∷ 3 ∷ 200 ∷ []) (9 ∷ 10 ∷ 255 ∷ 12 ∷ []) sum 8 ≡ ok next)
    × (wc_sum_get schar (5 ∷ 6 ∷ 7 ∷ 8 ∷ 9 ∷ 10 ∷ 255 ∷ 12 ∷ []) 8 ≡ ok next)
wc_sum_update-wc_sum_get_example =
    wc_sum_update-wc_sum_get 1 1 2 3 200 9 10 255 12 (5 ∷ 6 ∷ 7 ∷ 8 ∷ []) refl (omega arith)

-- A file of two blocks of eight bytes.
abbrev a_file : List ℕ
a_file = 1 ∷ 2 ∷ 3 ∷ 4 ∷ 5 ∷ 6 ∷ 7 ∷ 8 ∷ 9 ∷ 10 ∷ 11 ∷ 200 ∷ 13 ∷ 14 ∷ 15 ∷ 16 ∷ []

make_hash-find_example :
    (h' : HashState) × (make_hash a_file 8 initial ≡ ok (tt, h'))
    × (find 40 h' ≡ ok (first_value 40 (all_windows a_file 8), h'))
make_hash-find_example = make_hash-find a_file 1 40 initial (omega arith) (omega arith) refl
