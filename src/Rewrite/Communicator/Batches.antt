-- ===== src/Rewrite/Communicator/Batches.antt =====
-- `comm_batch` of src/communicate.cpp, until the queue is empty.
use cryptar.Prelude.{
  ℕ, zero, suc, ◌*◌, ◌≤◌, ◌≡◌, refl, ap, ◌∙◌, sym, true, List, [], ◌∷◌, ◌++◌, length, take, drop,
  ok, State, arith, ok-inj, take-append-drop, length-drop, ltb, if◌then◌else◌, Bool-cases, inl, inr,
}
use cryptar.Rewrite.System.{Os}
use cryptar.Rewrite.Crypt.{CryptoLib}
use cryptar.Rewrite.Block.{Transport}
use cryptar.Rewrite.Communicator.{Communicator, Objects, World, complete_all, comm_batch, batches}
use cryptar.Rewrite.Communicator.Draining.{
  stored_all, stored_all-alike, stored_all-append, complete_all-append, complete_all-alike,
  transfer-stored_all,
}

-- The blocks of the next batch.
abbrev batch : ℕ → List ℕ → ℕ
batch size q = if ltb (length q) size then length q else size

batch_left :
    (size n : ℕ) (q : List ℕ) → length q ≤ suc n * size → length (drop (batch size q) q) ≤ n * size
batch_left size n q h = elim (Bool-cases (ltb (length q) size)) [
  | inl t ↦ rw t (omega (arith, length-drop (length q) q))
  | inr f ↦ rw f (omega (arith, length-drop size q))
]

-- The world after the blocks of a queue are transferred.
abbrev pub transferred :
    {Act Client : Type 0}
    → CryptoLib
    → Os
    → Transport
    → List ℕ
    → World Act Client
    → Objects Act Client
    → World Act Client
transferred lib os t q w o = record {
  system = stored_all lib os t w.objects.blocks q w.system;
  objects = o;
}

module _ {Act Client : Type 0} (lib : CryptoLib) (os : Os) (call : Act → State Client (Unit {0}))
    (writable : (path : List ℕ) → os.writable path ≡ true) where
  comm_batch-transferred :
      (c : Communicator) (p : ℕ) (ps : List ℕ) (w : World Act Client) (m : Objects Act Client)
      → complete_all call (take (batch c.batch_size (p ∷ ps)) (p ∷ ps)) w.objects ≡ ok (tt, m)
      → comm_batch lib os call (record c { queue = p ∷ ps }) w
        ≡ ok (
          record c { queue = drop (batch c.batch_size (p ∷ ps)) (p ∷ ps) },
          transferred lib os c.transport (take (batch c.batch_size (p ∷ ps)) (p ∷ ps)) w m,
        )
  unfolding comm_batch
  comm_batch-transferred c p ps w m run =
      rw
        (transfer-stored_all lib os call writable c.transport
          (take (batch c.batch_size (p ∷ ps)) (p ∷ ps)) w m run)
        refl

  -- Two parts of a queue that are transferred one after the other.
  transferred_twice :
      (t : Transport) (xs ys : List ℕ) (w : World Act Client) (m o : Objects Act Client)
      → complete_all call xs w.objects ≡ ok (tt, m)
      → transferred lib os t ys (transferred lib os t xs w m) o
        ≡ transferred lib os t (xs ++ ys) w o
  transferred_twice t xs ys w m o e =
      let alike = complete_all-alike lib os call xs w.objects m e in
      let s = stored_all lib os t w.objects.blocks xs w.system in
      ap (λ s. record { system = s; objects = o })
        (sym (stored_all-alike lib os t w.objects.blocks m.blocks ys s alike)
          ∙ sym (stored_all-append lib os t w.objects.blocks xs ys w.system))

  drain :
      (c : Communicator) (n : ℕ) (q : List ℕ) (w : World Act Client) (o : Objects Act Client)
      → length q ≤ n * c.batch_size
      → complete_all call q w.objects ≡ ok (tt, o)
      → batches lib os call n (record c { queue = q }) w
        ≡ ok (record c { queue = [] }, transferred lib os c.transport q w o)
  unfolding batches comm_batch stored_all complete_all
  drain c zero [] w o h e =
      ap (λ x. ok (record c { queue = [] }, record w { objects = x })) (ok-inj e).1
  drain c zero (p ∷ ps) w o h e = absurd (omega arith)
  drain c (suc n) [] w o h e = drain c n [] w o (omega arith) e
  drain c (suc n) (p ∷ ps) w o h e =
      let k = batch c.batch_size (p ∷ ps) in
      let whole = take-append-drop k (p ∷ ps) in
      let (m, e1, e2) =
        complete_all-append lib os call (take k (p ∷ ps)) (drop k (p ∷ ps)) w.objects o
          (ap (λ q. complete_all call q w.objects) whole ∙ e) in
      let w' = transferred lib os c.transport (take k (p ∷ ps)) w m in
      rw (comm_batch-transferred c p ps w m e1)
        (drain c n (drop k (p ∷ ps)) w' o (batch_left c.batch_size n (p ∷ ps) h) e2)
      ∙ ap (λ x. ok (record c { queue = [] }, x))
          (transferred_twice c.transport (take k (p ∷ ps)) (drop k (p ∷ ps)) w m o e1
            ∙ ap (λ q. transferred lib os c.transport q w o) whole)

  -- Every block that is queued is written, in the order of the queue, and its tokens are called, if every
  -- file can be written, no token throws and the batches are enough for the queue.
  pub batches-transferred :
      (n : ℕ) (c : Communicator) (w : World Act Client) (o : Objects Act Client)
      → length c.queue ≤ n * c.batch_size
      → complete_all call c.queue w.objects ≡ ok (tt, o)
      → batches lib os call n c w
        ≡ ok (record c { queue = [] }, transferred lib os c.transport c.queue w o)
  batches-transferred n c w o h e = drain c n c.queue w o h e
