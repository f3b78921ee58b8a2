-- ===== src/Rewrite/Communicator/Draining.antt =====
-- What the transfers of src/communicate.cpp write, and what completions leave of the blocks.
use cryptar.Prelude.{
  ℕ, ◌≡◌, refl, ap, ◌∙◌, sym, subst, true, List, [], ◌∷◌, ◌++◌, ok, fault, Result, State, run_next,
  run_next-ok, ok-inj, Bool-cases, inl, inr, ==_iff, ◌==◌, if◌then◌else◌,
}
use cryptar.Rewrite.System.{System, Os, with_file, write_file}
use cryptar.Rewrite.Crypt.{CryptoLib}
use cryptar.Rewrite.Block.{
  Transport, none_transport, fs_transport, Block, complete, call_all, to_stream,
}
use cryptar.Rewrite.Transport.{block_to_filename, transport_write}
use cryptar.Rewrite.Communicator.{
  Objects, World, set_block, complete_at, complete_all, write_all, transfer,
}

-- Two stores whose blocks are written alike.
pub record WrittenAlike {Act : Type 0} (f g : ℕ → Block Act) : Type 0 where
  pub same_text : (p : ℕ) → (f p).cipher_text ≡ (g p).cipher_text
  pub same_id : (p : ℕ) → (f p).id ≡ (g p).id

module _ {Act : Type 0} (lib : CryptoLib) (os : Os) where
  -- What a write leaves.
  unfoldable pub stored : Transport → Block Act → System → System
  stored none_transport b s = s
  stored (fs_transport base) b s = with_file (block_to_filename lib os base b) b.cipher_text s

  -- The blocks stored in their order.
  unfoldable pub stored_all : Transport → (ℕ → Block Act) → List ℕ → System → System
  stored_all t blocks [] s = s
  stored_all t blocks (bp ∷ bps) s = stored_all t blocks bps (stored t (blocks bp) s)

  module _ (writable : (path : List ℕ) → os.writable path ≡ true) where
    transport_write-stored :
        (t : Transport) (b : Block Act) (s : System)
        → transport_write lib os t b s ≡ ok (tt, stored t b s)
    unfolding transport_write stored write_file to_stream
    transport_write-stored none_transport b s = refl
    transport_write-stored (fs_transport base) b s =
        rw (writable (block_to_filename lib os base b)) refl

    write_all-stored_all :
        (t : Transport) (blocks : ℕ → Block Act) (bps : List ℕ) (s : System)
        → write_all lib os t blocks bps s ≡ ok (tt, stored_all t blocks bps s)
    unfolding write_all stored_all
    write_all-stored_all t blocks [] s = refl
    write_all-stored_all t blocks (bp ∷ bps) s =
        rw (transport_write-stored t (blocks bp) s)
          (write_all-stored_all t blocks bps (stored t (blocks bp) s))

  stored-alike :
      (t : Transport) (b b' : Block Act) (s : System)
      → b.cipher_text ≡ b'.cipher_text
      → b.id ≡ b'.id
      → stored t b s ≡ stored t b' s
  unfolding stored block_to_filename
  stored-alike none_transport b b' s e f = refl
  stored-alike (fs_transport base) b b' s e f = rw (e, f) refl

  pub stored_all-alike :
      (t : Transport) (f g : ℕ → Block Act) (bps : List ℕ) (s : System)
      → WrittenAlike f g
      → stored_all t f bps s ≡ stored_all t g bps s
  unfolding stored_all
  stored_all-alike t f g [] s h = refl
  stored_all-alike t f g (bp ∷ bps) s h =
      ap (stored_all t f bps) (stored-alike t (f bp) (g bp) s (h.same_text bp) (h.same_id bp))
      ∙ stored_all-alike t f g bps (stored t (g bp) s) h

  pub stored_all-append :
      (t : Transport) (f : ℕ → Block Act) (xs ys : List ℕ) (s : System)
      → stored_all t f (xs ++ ys) s ≡ stored_all t f ys (stored_all t f xs s)
  unfolding stored_all
  stored_all-append t f [] ys s = refl
  stored_all-append t f (x ∷ xs) ys s = stored_all-append t f xs ys (stored t (f x) s)

module _ {Act Client : Type 0} (lib : CryptoLib) (os : Os)
    (call : Act → State Client (Unit {0})) where
  complete-alike :
      (b b' : Block Act) (s s' : Client)
      → complete call b s ≡ ok (b', s')
      → (b'.cipher_text ≡ b.cipher_text) × (b'.id ≡ b.id)
  unfolding complete
  complete-alike b b' s s' e =
      let (_, s1, _, rest) =
        run_next-ok (call_all call b.act_queue s) (λ _ t. ok (record b { act_queue = [] }, t)) e in
      let same = (ok-inj rest).0 in (ap (λ x. x.cipher_text) (sym same), ap (λ x. x.id) (sym same))

  pub complete_all-append :
      (xs ys : List ℕ) (o o' : Objects Act Client)
      → complete_all call (xs ++ ys) o ≡ ok (tt, o')
      → (m : Objects Act Client) × (complete_all call xs o ≡ ok (tt, m))
        × (complete_all call ys m ≡ ok (tt, o'))
  unfolding complete_all
  complete_all-append [] ys o o' e = (o, refl, e)
  complete_all-append (x ∷ xs) ys o o' e =
      let (_, m, first, rest) =
        run_next-ok (complete_at call x o) (λ _. complete_all call (xs ++ ys)) e in
      let (m', e1, e2) = complete_all-append xs ys m o' rest in
      (m', ap (λ r. run_next r (λ _. complete_all call xs)) first ∙ e1, e2)

  completed_at :
      (r : Result (Block Act × Client)) (bp : ℕ) (o o' : Objects Act Client)
      → Path
          (Result (Unit {0} × Objects Act Client))
          (elim r [
            | ok (b, client) ↦ ok (tt, set_block bp b (record o { client = client }))
            | fault x ↦ fault x
          ])
          (ok (tt, o'))
      → (b : Block Act) × (client : Client) × (r ≡ ok (b, client))
        × (set_block bp b (record o { client = client }) ≡ o')
  completed_at (ok (b, client)) bp o o' e = (b, client, refl, (ok-inj e).1)
  completed_at (fault x) bp o o' e = cc

  replaced :
      {V : Type 0} (view : Block Act → V) (bp : ℕ) (b : Block Act) (f : ℕ → Block Act) (q : ℕ)
      → view b ≡ view (f bp)
      → view (f q) ≡ view (if q == bp then b else f q)
  replaced view bp b f q e = elim (Bool-cases (q == bp)) [
    | inl t ↦
        (let same = (==_iff q bp).0 t in
          ap (λ p. view (f p)) same ∙ sym e ∙ ap (λ x. view (if x then b else f q)) (sym t))
    | inr n ↦ ap (λ x. view (if x then b else f q)) (sym n)
  ]

  complete_at-alike :
      (bp : ℕ) (o o' : Objects Act Client)
      → complete_at call bp o ≡ ok (tt, o')
      → WrittenAlike o.blocks o'.blocks
  unfolding complete_at
  complete_at-alike bp o o' e =
      let (b, client, run, same) = completed_at (complete call (o.blocks bp) o.client) bp o o' e in
      let (text, name) = complete-alike (o.blocks bp) b o.client client run in
      subst (λ x. WrittenAlike o.blocks x.blocks) same
        (record {
          same_text = λ q. replaced (λ x. x.cipher_text) bp b o.blocks q text;
          same_id = λ q. replaced (λ x. x.id) bp b o.blocks q name;
        })

  pub complete_all-alike :
      (bps : List ℕ) (o o' : Objects Act Client)
      → complete_all call bps o ≡ ok (tt, o')
      → WrittenAlike o.blocks o'.blocks
  unfolding complete_all
  complete_all-alike [] o o' e =
      subst (λ x. WrittenAlike o.blocks x.blocks) (ok-inj e).1
        (record { same_text = λ p. refl; same_id = λ p. refl })
  complete_all-alike (bp ∷ bps) o o' e =
      let (_, m, first, rest) =
        run_next-ok (complete_at call bp o) (λ _. complete_all call bps) e in
      let a = complete_at-alike bp o m first in
      let b = complete_all-alike bps m o' rest in
      record {
        same_text = λ p. a.same_text p ∙ b.same_text p;
        same_id = λ p. a.same_id p ∙ b.same_id p;
      }

  module _ (writable : (path : List ℕ) → os.writable path ≡ true) where
    pub transfer-stored_all :
        (t : Transport) (bps : List ℕ) (w : World Act Client) (o : Objects Act Client)
        → complete_all call bps w.objects ≡ ok (tt, o)
        → transfer lib os call t bps w
          ≡ ok (
            tt,
            record { system = stored_all lib os t w.objects.blocks bps w.system; objects = o },
          )
    unfolding transfer
    transfer-stored_all t bps w o e =
        rw (write_all-stored_all lib os writable t w.objects.blocks bps w.system, e) refl
