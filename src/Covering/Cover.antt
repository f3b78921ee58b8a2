-- ===== src/Covering/Cover.antt =====
-- Which bytes of a file the blocks of a new cover hold.
use cryptar.Prelude.{ℕ, ◌+◌, ◌≤◌, ◌<◌, ◌≡◌, true, List, [], ◌∷◌, ◌++◌, ◌⊎◌, inl, inr}
use cryptar.Block.{DbBlock}

-- The byte at `x` is inside of a block of the new cover.
abbrev pub Covers : DbBlock → ℕ → Type 0
Covers b x = (b.in_new_cover ≡ true) × (b.offset ≤ x) × (x < b.offset + b.block_length)

abbrev pub Covered : ℕ → List DbBlock → Type 0
Covered x [] = ⊥
Covered x (b ∷ bs) = Covers b x ⊎ Covered x bs

pub Covered-append_left : (x : ℕ) (as' bs : List DbBlock) → Covered x as' → Covered x (as' ++ bs)
Covered-append_left x [] bs h = absurd h
Covered-append_left x (a ∷ as') bs (inl h) = inl h
Covered-append_left x (a ∷ as') bs (inr h) = inr (Covered-append_left x as' bs h)

pub Covered-append_right : (x : ℕ) (as' bs : List DbBlock) → Covered x bs → Covered x (as' ++ bs)
Covered-append_right x [] bs h = h
Covered-append_right x (a ∷ as') bs h = inr (Covered-append_right x as' bs h)

-- Every block of the array lies below `limit`, and so does a new block that starts where it does.
abbrev pub Within : (block_length limit : ℕ) → List DbBlock → Type 0
Within block_length limit [] = Unit
Within block_length limit (b ∷ bs) =
    (b.offset + block_length ≤ limit)
    × (b.offset + b.block_length ≤ limit)
    × Within block_length limit bs
