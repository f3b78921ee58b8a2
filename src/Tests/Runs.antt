-- ===== src/Tests/Runs.antt =====
-- Runs of the code on small inputs.
use cryptar.Prelude.{ℕ, ◌≡◌, refl, Option, none, some, List, [], ◌∷◌, ok, and_then, Result}
use cryptar.Ios
use cryptar.Ios.{
  append_string, append_int32, append, reserve, grow, write_at_end, read_str, read_int32, read,
  strndup, copy_from,
}

-- What `ios_read_str` makes of a text.
abbrev read_back : List ℕ → Result (Option (List ℕ))
read_back text = and_then (Ios.written (append_string text)) (Ios.parsed read_str)

read_back-text : read_back (104 ∷ 105 ∷ []) ≡ ok (some (104 ∷ 105 ∷ []))
unfolding append_string append_int32 append reserve write_at_end read_str read_int32 read strndup
    copy_from
read_back-text = refl

-- The text of no bytes comes back as NULL.
read_back-empty : read_back [] ≡ ok none
unfolding append_string append_int32 append reserve write_at_end read_str read_int32 read strndup
    copy_from
read_back-empty = refl
