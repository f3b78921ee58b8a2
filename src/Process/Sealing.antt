-- ===== src/Process/Sealing.antt =====
-- Block data on its way to the server and back: `do_compress` and `encrypt`, then `decrypt` and
-- `do_decompress`, version-1/compress.c and version-1/encryption.c.
use cryptar.Prelude.{
  ℕ, ◌+◌, ◌^◌, ◌≤◌, ◌<◌, ◌≡◌, refl, ap, ◌∙◌, some, List, ◌∷◌, length, ok, arith, ne→not_==,
}
use cryptar.Ios.{IosBuf}
use cryptar.Ios.Buffers.{Holds, buffer_of-Holds, unread-Holds}
use cryptar.Compress.{do_compress, do_decompress}
use cryptar.Encryption.RoundTrip.{encrypt_lem, decrypt_lem, ZerosLast, strncpy-ZerosLast}
use cryptar.Process.{Env, Process, seal, unseal, draw}

-- What zlib packs it unpacks, and the cipher undoes itself and keeps lengths.
pub record IsReversible (env : Env) : Type 0 where
  pub uncompress-compress :
      (text packed : List ℕ) (n : ℕ)
      → env.compress text ≡ some packed
      → length text ≤ n
      → env.uncompress packed n ≡ some text
  pub sized : (iv text : List ℕ) → length (env.ctr env.key iv text) ≡ length text
  pub undone : (iv text : List ℕ) → env.ctr env.key iv (env.ctr env.key iv text) ≡ text

module _ (env : Env) where
  do_compress-Holds :
      (text packed : List ℕ) {ios : IosBuf}
      → Holds text ios
      → env.compress text ≡ some packed
      → length packed ≤ 2 ^ 30
      → (r : IosBuf) × (do_compress env.compress ios ≡ ok r) × Holds packed r
  unfolding do_compress
  do_compress-Holds text packed h e fits =
      let (r, er, pr) = buffer_of-Holds packed fits in
      (r, rw (do_compress, unread-Holds text h, e) er, pr)

  do_decompress-Holds :
      (text packed : List ℕ) (n : ℕ) {ios : IosBuf}
      → Holds packed ios
      → 0 < n
      → env.uncompress packed n ≡ some text
      → length text ≤ 2 ^ 30
      → (r : IosBuf) × (do_decompress env.uncompress ios n ≡ ok r) × Holds text r
  unfolding do_decompress
  do_decompress-Holds text packed n h pos e fits =
      let (r, er, pr) = buffer_of-Holds text fits in
      (r, rw (ne→not_== n 0 (omega arith), unread-Holds packed h, e) er, pr)

  -- Data that is compressed and encrypted for the server comes back from it unchanged, if zlib and the
  -- cipher are reversible, the vector that is drawn has 16 bytes and no zero byte in front of another
  -- byte, and the length that is given for it is not zero and not too small. The data and what it is
  -- packed into are of at most 2 ^ 30 bytes with the vector.
  pub unseal-seal :
      (text packed : List ℕ) (b n : ℕ) (p : Process env.lib)
      → IsReversible env
      → length (env.yarrow p.draws) ≡ 16
      → ZerosLast (env.yarrow p.draws)
      → env.compress text ≡ some (b ∷ packed)
      → length text ≤ 2 ^ 30
      → length (b ∷ packed) + 16 ≤ 2 ^ 30
      → length text ≤ n
      → 0 < n
      → (sealed plain : IosBuf) × (seal env text p ≡ ok (sealed, record p { draws = p.draws + 1 }))
        × (unseal env sealed n ≡ ok plain)
        × Holds text plain
  unfolding seal unseal draw
  unseal-seal text packed b n p law full zeros e small fits room pos =
      let iv = env.yarrow p.draws in
      let (i, ei, pi) = buffer_of-Holds text small in
      let (c, ec, pc) = do_compress-Holds text (b ∷ packed) pi e (omega arith) in
      let (s, es, vs, cs) =
        encrypt_lem env.ctr env.key iv law.sized full b packed pc.valid pc.unread_bytes fits in
      let (d, ed, vd, cd) =
        decrypt_lem env.ctr env.key iv (env.ctr env.key iv (b ∷ packed)) law.sized full vs cs
          (omega (arith, law.sized iv (b ∷ packed))) in
      let same =
        cd
        ∙ ap (λ v. env.ctr env.key v (env.ctr env.key iv (b ∷ packed)))
            (strncpy-ZerosLast 16 iv full zeros)
        ∙ law.undone iv (b ∷ packed) in
      let (r, er, pr) =
        do_decompress-Holds text (b ∷ packed) n (record { valid = vd; unread_bytes = same }) pos
          (law.uncompress-compress text (b ∷ packed) n e room) small in
      (s, r, rw (ei, ec, es) refl, rw ed er, pr)
