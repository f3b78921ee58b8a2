-- ===== src/Rewrite/Block.antt =====
-- src/block.h and src/block.cpp: blocks, which hold their contents compressed and encrypted.
--
-- A completion token is of the client's type `Act`, and its call a computation over the client's state;
-- it does not add to the queue that it is called from. The checksums of CoverBlock are never filled, so
-- a CoverBlock is a DataBlock here.
pub mod RoundTrip
use cryptar.Prelude.{
  ℕ, ◌+◌, Bool, true, false, List, [], ◌∷◌, ◌++◌, length, drop, ltb, if◌then◌else◌, Result, ok,
  fault, thrown, out_of_range, and_then, State, pure, lift, ◌>>=◌, ◌>>◌,
}
use cryptar.Rewrite.System.{System}
use cryptar.Rewrite.Crypt.{CryptoLib, encrypt, decrypt, pseudo_random_string}
use cryptar.Rewrite.Compress.{BzLib, compress, decompress, rounds}

-- The classes NoTransport and TransportFS, which has its base path.
pub data Transport : Type 0 where
  none_transport : Transport
  fs_transport : List ℕ → Transport

-- The flags of BlockStatus.
abbrev pub block_status_invalid : ℕ
block_status_invalid = 0

abbrev pub ready : ℕ
ready = 1

abbrev pub dirty : ℕ
dirty = 2

pub record Block (Act : Type 0) : Type 0 where
  pub cipher_text : List ℕ
  pub crypto_key : List ℕ
  pub id : List ℕ
  pub status : ℕ
  pub act_queue : List Act
  pub transport : Transport

-- The random bytes in front of the contents.
abbrev pub salt_length : ℕ
salt_length = 11

module _ {Act : Type 0} (lib : CryptoLib) (bz : BzLib) where
  -- The id is drawn twice: by its own constructor, and by that of the block.
  unfoldable pub block_empty : Transport → (crypto_key : List ℕ) → State System (Block Act)
  block_empty transport crypto_key = do
    unused ← pseudo_random_string lib 40
    id ← pseudo_random_string lib 40
    pure (record {
      cipher_text = [];
      crypto_key = crypto_key;
      id = id;
      status = ready + dirty;
      act_queue = [];
      transport = transport;
    })

  unfoldable pub block_by_id : Transport → (crypto_key id : List ℕ) → Block Act
  block_by_id transport crypto_key id = record {
    cipher_text = [];
    crypto_key = crypto_key;
    id = id;
    status = block_status_invalid;
    act_queue = [];
    transport = transport;
  }

  unfoldable pub set_content : (contents : List ℕ) → Block Act → State System (Block Act)
  set_content contents b = do
    salt ← pseudo_random_string lib salt_length
    packed ← lift (compress bz (salt ++ contents))
    sealed ← lift (encrypt lib packed b.crypto_key)
    pure (record b { cipher_text = sealed })

  -- The constructor does what `set_content` does to an empty block.
  unfoldable pub block_by_content :
      Transport → (crypto_key contents : List ℕ) → State System (Block Act)
  block_by_content transport crypto_key contents = do
    b ← block_empty transport crypto_key
    set_content contents b

  -- `substr` throws where the text is shorter than the salt.
  unfoldable pub plain_text : Block Act → Result (List ℕ)
  plain_text b = and_then (decrypt lib b.cipher_text b.crypto_key) λ packed.
      and_then (decompress bz rounds packed 0) λ augmented_text.
        if ltb (length augmented_text) salt_length
        then fault (thrown out_of_range)
        else ok (drop salt_length augmented_text)

module _ {Act : Type 0} where
  unfoldable pub to_stream : Block Act → List ℕ
  to_stream b = b.cipher_text

  unfoldable pub from_stream : List ℕ → Block Act → Block Act
  from_stream bytes b = record b { cipher_text = bytes }

  unfoldable pub action_pending : Block Act → Bool
  action_pending b = elim b.act_queue [ [] ↦ false | _ ∷ _ ↦ true ]

  -- `completion_action(ACT_Base *)`.
  unfoldable pub push_action : Act → Block Act → Block Act
  push_action act b = record b { act_queue = b.act_queue ++ act ∷ [] }

module _ {Act Client : Type 0} (call : Act → State Client (Unit {0})) where
  unfoldable pub call_all : List Act → State Client (Unit {0})
  call_all [] = pure tt
  call_all (act ∷ acts) = do call act; call_all acts

  -- `completion_action()`.
  unfoldable pub complete : Block Act → State Client (Block Act)
  complete b = do call_all b.act_queue; pure (record b { act_queue = [] })
