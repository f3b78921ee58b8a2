-- ===== src/Protocol/Rebuild.antt =====
-- The file that `install_block` of version-1/protocol.c writes, from the blocks of the archived one.
use cryptar.Prelude.{
  ℕ, zero, suc, ◌+◌, ◌-◌, ◌≤◌, ◌<◌, ◌≡◌, refl, sym, ap, ◌∙◌, ◌⊎◌, inl, inr, subst, List, [], ◌∷◌,
  ◌++◌, length, take, drop, get_elem?, append_assoc, length-append, length-take, length-drop,
  get_elem?-append_left, get_elem?-append_right, get_elem?-take, get_elem?-drop, arith,
  same_bytes_self, ne→not_==, eq→==,
}
use native.Mathlib.Decide.{dec_lt}
use cryptar.Block.{DbBlock}
use cryptar.Encryption.{zeros}
use cryptar.Process.{Env}
use cryptar.Protocol.Client.{install_block, write_at}
use cryptar.Tickets.{WorkTicket}

length-zeros : (n : ℕ) → length (zeros n) ≡ n
length-zeros zero = refl
length-zeros (suc n) = omega (arith, length-zeros n)

-- What stands in front of the bytes that are written.
front : List ℕ → ℕ → List ℕ
front file offset = take offset file ++ zeros (offset - length file)

length-front : (file : List ℕ) (offset : ℕ) → length (front file offset) ≡ offset
unfolding front
length-front file offset = omega (
  arith,
  length-append (take offset file) (zeros (offset - length file)),
  length-take offset file,
  length-zeros (offset - length file),
)

write_at-front :
    (file : List ℕ) (offset : ℕ) (bytes : List ℕ)
    → 0 < length bytes
    → write_at file offset bytes ≡ front file offset ++ (bytes ++ drop (offset + length bytes) file)
unfolding front write_at
write_at-front file offset bytes some_bytes = rw (ne→not_== (length bytes) 0 (omega arith)) (
    sym (
      append_assoc (take offset file) (zeros (offset - length file))
        (bytes ++ drop (offset + length bytes) file)))

write_at-nothing :
    (file : List ℕ) (offset : ℕ) (bytes : List ℕ)
    → length bytes ≡ 0
    → write_at file offset bytes ≡ file
unfolding write_at
write_at-nothing file offset bytes e = rw (eq→== (length bytes) 0 e) refl

length-write_at :
    (file : List ℕ) (offset : ℕ) (bytes : List ℕ)
    → 0 < length bytes
    → (length file ≤ length (write_at file offset bytes))
      × (offset + length bytes ≤ length (write_at file offset bytes))
length-write_at file offset bytes some_bytes =
    let e = ap length (write_at-front file offset bytes some_bytes) in
    omega (
      arith,
      e,
      length-front file offset,
      length-append (front file offset) (bytes ++ drop (offset + length bytes) file),
      length-append bytes (drop (offset + length bytes) file),
      length-drop (offset + length bytes) file,
    )

-- Inside of what is written are its bytes,
write_at-inside :
    (file : List ℕ) (offset : ℕ) (bytes : List ℕ) (x : ℕ)
    → offset ≤ x
    → x < offset + length bytes
    → get_elem? (write_at file offset bytes) x ≡ get_elem? bytes (x - offset)
write_at-inside file offset bytes x low high =
    ap (λ l. get_elem? l x) (write_at-front file offset bytes (omega arith))
    ∙ get_elem?-append_right (front file offset) _ x offset (length-front file offset) low
    ∙ get_elem?-append_left bytes _ (x - offset) (omega arith)

-- and outside of it those of the file.
write_at-outside :
    (file : List ℕ) (offset : ℕ) (bytes : List ℕ) (x : ℕ)
    → 0 < length bytes
    → x < length file
    → (x < offset) ⊎ (offset + length bytes ≤ x)
    → get_elem? (write_at file offset bytes) x ≡ get_elem? file x
unfolding front
write_at-outside file offset bytes x some_bytes inside (inl before) =
    ap (λ l. get_elem? l x) (write_at-front file offset bytes some_bytes)
    ∙ get_elem?-append_left (front file offset) _ x (omega (arith, length-front file offset))
    ∙ get_elem?-append_left (take offset file) _ x (omega (arith, length-take offset file))
    ∙ get_elem?-take offset file x before
write_at-outside file offset bytes x some_bytes inside (inr after) =
    ap (λ l. get_elem? l x) (write_at-front file offset bytes some_bytes)
    ∙ get_elem?-append_right (front file offset) _ x offset (length-front file offset) (omega arith)
    ∙ get_elem?-append_right bytes _ (x - offset) (length bytes) refl (omega arith)
    ∙ get_elem?-drop (offset + length bytes) file (x - offset - length bytes) x (omega arith)

-- The bytes of a block in a file.
abbrev pub slice : List ℕ → DbBlock → List ℕ
slice content b = take b.block_length (drop b.offset content)

-- The file has the byte at `x` as the archived one has it.
pub record Restored (content file : List ℕ) (x : ℕ) : Type 0 where
  pub inside : x < length file
  pub same : get_elem? file x ≡ get_elem? content x

-- The block lies in the file, and its checksum is that of its bytes there.
pub record IsBlockOf (sha1 : List ℕ → List ℕ) (content : List ℕ) (b : DbBlock) : Type 0 where
  pub within : b.offset + b.block_length ≤ length content
  pub described : sha1 (slice content b) ≡ b.strong_checksum

length-slice :
    (content : List ℕ) (b : DbBlock)
    → b.offset + b.block_length ≤ length content
    → length (slice content b) ≡ b.block_length
length-slice content b h =
    omega (arith, length-take b.block_length (drop b.offset content), length-drop b.offset content)

get_elem?-slice :
    (content : List ℕ) (b : DbBlock) (x : ℕ)
    → b.offset ≤ x
    → x < b.offset + b.block_length
    → get_elem? (slice content b) (x - b.offset) ≡ get_elem? content x
get_elem?-slice content b x low high =
    get_elem?-take b.block_length (drop b.offset content) (x - b.offset) (omega arith)
    ∙ get_elem?-drop b.offset content (x - b.offset) x (omega arith)

-- A block that is written restores its bytes,
written-Restored :
    (content file : List ℕ) (b : DbBlock) (x : ℕ)
    → b.offset + b.block_length ≤ length content
    → b.offset ≤ x
    → x < b.offset + b.block_length
    → Restored content (write_at file b.offset (slice content b)) x
written-Restored content file b x h low high =
    let n = length-slice content b h in
    record {
      inside =
          omega (arith, n, (length-write_at file b.offset (slice content b) (omega (arith, n))).1);
      same =
          write_at-inside file b.offset (slice content b) x low (omega (arith, n))
          ∙ get_elem?-slice content b x low high;
    }

-- and keeps those that are.
kept-Restored :
    (content file : List ℕ) (b : DbBlock) (x : ℕ)
    → b.offset + b.block_length ≤ length content
    → Restored content file x
    → Restored content (write_at file b.offset (slice content b)) x
kept-Restored content file b x h r =
    let n = length-slice content b h in
    elim (dec_lt 0 (length (slice content b))) [
      | no nothing ↦
          subst (λ f. Restored content f x)
            (sym (write_at-nothing file b.offset (slice content b) (omega arith))) r
      | yes some_bytes ↦
          let longer : x < length (write_at file b.offset (slice content b)) =
            omega
              (arith, r.inside, (length-write_at file b.offset (slice content b) some_bytes).0) in
          let outside : (x < b.offset) ⊎ (b.offset + length (slice content b) ≤ x)
              → Restored content (write_at file b.offset (slice content b)) x =
            λ away. record {
              inside = longer;
              same =
                  write_at-outside file b.offset (slice content b) x some_bytes r.inside away
                  ∙ r.same;
            } in
          elim (dec_lt x b.offset) [
            | yes before ↦ outside (inl before)
            | no behind ↦ elim (dec_lt x (b.offset + b.block_length)) [
              | yes high ↦ written-Restored content file b x h (omega arith) high
              | no past ↦ outside (inr (omega (arith, n)))
            ]
          ]
    ]

-- Some block of the list has the byte at `x`.
abbrev pub IsInBlock : ℕ → List DbBlock → Type 0
IsInBlock x [] = ⊥
IsInBlock x (b ∷ bs) = ((b.offset ≤ x) × (x < b.offset + b.block_length)) ⊎ IsInBlock x bs

module _ (env : Env) where
  -- The blocks of a list arrive one after the other, each with its bytes in the file.
  unfoldable pub install_all : List ℕ → WorkTicket → List DbBlock → WorkTicket
  install_all content wt [] = wt
  install_all content wt (b ∷ bs) =
      install_all content (install_block env wt b (slice content b)).0 bs

  abbrev pub AreBlocksOf : List ℕ → List DbBlock → Type 0
  AreBlocksOf content [] = Unit
  AreBlocksOf content (b ∷ bs) = IsBlockOf env.sha1 content b × AreBlocksOf content bs

  install_block-file :
      (content : List ℕ) (wt : WorkTicket) (b : DbBlock)
      → IsBlockOf env.sha1 content b
      → (install_block env wt b (slice content b)).0.file
        ≡ write_at wt.file b.offset (slice content b)
  unfolding install_block
  install_block-file content wt b h = rw (h.described, same_bytes_self b.strong_checksum) refl

  install_all-kept :
      (content : List ℕ) (wt : WorkTicket) (bs : List DbBlock) (x : ℕ)
      → AreBlocksOf content bs
      → Restored content wt.file x
      → Restored content (install_all content wt bs).file x
  unfolding install_all
  install_all-kept content wt [] x h r = r
  install_all-kept content wt (b ∷ bs) x (h, hs) r =
      install_all-kept content (install_block env wt b (slice content b)).0 bs x hs (
        subst (λ f. Restored content f x) (sym (install_block-file content wt b h))
          (kept-Restored content wt.file b x h.within r))

  -- If every block of a list lies in an archived file and has the checksum of its bytes there, then
  -- after the bytes of all of them were installed, in any order and into a file of any contents, every
  -- byte that one of the blocks holds is the byte of the archived file.
  pub install_all-Restored :
      (content : List ℕ) (wt : WorkTicket) (bs : List DbBlock) (x : ℕ)
      → AreBlocksOf content bs
      → IsInBlock x bs
      → Restored content (install_all content wt bs).file x
  unfolding install_all
  install_all-Restored content wt [] x h c = absurd c
  install_all-Restored content wt (b ∷ bs) x (h, hs) (inl (low, high)) =
      install_all-kept content (install_block env wt b (slice content b)).0 bs x hs (
        subst (λ f. Restored content f x) (sym (install_block-file content wt b h))
          (written-Restored content wt.file b x h.within low high))
  install_all-Restored content wt (b ∷ bs) x (h, hs) (inr c) =
      install_all-Restored content (install_block env wt b (slice content b)).0 bs x hs c
