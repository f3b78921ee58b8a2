-- ===== src/Rewrite/Transport/Fetching.antt =====
-- A block of src/block.cpp that one instance writes and another reads through a TransportFS.
use cryptar.Prelude.{
  ℕ, ◌+◌, ◌^◌, ◌≤◌, ◌≡◌, refl, ap, true, some, List, length, ok, [], same_bytes_self, if◌then◌else◌,
}
use cryptar.Rewrite.System.{System, Os, with_file, write_file}
use cryptar.Rewrite.Crypt.{CryptoLib, encrypt, pseudo_random_string}
use cryptar.Rewrite.Compress.{BzLib, compress}
use cryptar.Rewrite.Block.{
  fs_transport, Block, block_empty, block_by_content, block_by_id, plain_text, salt_length,
  to_stream, from_stream, ready, dirty, block_status_invalid,
}
use cryptar.Rewrite.Block.RoundTrip.{salted, plain_text-set_content}
use cryptar.Rewrite.Transport.{
  block_to_filename, transport_read, transport_write, block_read, block_write,
}

module _ {Act : Type 0} (lib : CryptoLib) (os : Os) (base key : List ℕ) where
  -- What a block leaves in the directory of its transport.
  abbrev pub stored : Block Act → System → System
  stored b s = with_file (block_to_filename lib os base b) b.cipher_text s

  -- The block that has been read from what another has left.
  abbrev pub fetched : Block Act → Block Act
  fetched b = record {
    cipher_text = b.cipher_text;
    crypto_key = key;
    id = b.id;
    status = block_status_invalid;
    act_queue = [];
    transport = fs_transport base;
  }

  stored_found :
      (b : Block Act) (s : System)
      → (stored b s).files (block_to_filename lib os base b) ≡ some b.cipher_text
  stored_found b s =
      ap (λ t. if t then some b.cipher_text else s.files (block_to_filename lib os base b))
        (same_bytes_self (block_to_filename lib os base b))

  read_found :
      (b : Block Act) (s : System) (payload : List ℕ)
      → s.files (block_to_filename lib os base b) ≡ some payload
      → transport_read lib os (fs_transport base) b s ≡ ok (from_stream payload b, s)
  unfolding transport_read
  read_found b s payload e = rw (transport_read, e) refl

  block_read-block_write :
      (bz : BzLib) (b : Block Act) (s : System)
      → b.transport ≡ fs_transport base
      → os.writable (block_to_filename lib os base b) ≡ true
      → (block_write lib os b s ≡ ok (tt, stored b s))
        × (block_read lib os (block_by_id lib bz (fs_transport base) key b.id) (stored b s)
            ≡ ok (fetched b, stored b s))
  unfolding block_write block_read transport_write block_by_id write_file to_stream from_stream
      block_to_filename
  block_read-block_write bz b s t w = (
    rw (t, w) refl,
    read_found (block_by_id lib bz (fs_transport base) key b.id) (stored b s) b.cipher_text
        (stored_found b s),
  )

-- The block that is made with a ciphertext: its id is the second of the two that are drawn for it.
abbrev pub made :
    {Act : Type 0} (lib : CryptoLib) (base key : List ℕ) (call : ℕ) (sealed : List ℕ) → Block Act
made lib base key call sealed = record {
  cipher_text = sealed;
  crypto_key = key;
  id = lib.random (call + 1) 40;
  status = ready + dirty;
  act_queue = [];
  transport = fs_transport base;
}

module _ {Act : Type 0} (lib : CryptoLib) (bz : BzLib) (os : Os) (base key contents : List ℕ) where
  block_by_content-made :
      (s : System) (packed sealed : List ℕ)
      → length contents + salt_length ≤ 2 ^ 29
      → compress bz (salted lib contents (s.draws + 1 + 1)) ≡ ok packed
      → encrypt lib packed key ≡ ok sealed
      → block_by_content {Act = Act} lib bz (fs_transport base) key contents s
        ≡ ok (made lib base key s.draws sealed, record s { draws = s.draws + 1 + 1 + 1 })
  unfolding block_by_content block_empty pseudo_random_string
  block_by_content-made s packed sealed small pe se =
      (plain_text-set_content lib bz contents (made lib base key s.draws [])
        (record s { draws = s.draws + 1 + 1 }) packed sealed small pe se).0

  -- A block that is made by content and written can be made by its id and read back, with the same key
  -- and base path, and has the contents, if these are of less than 2 ^ 29 bytes with the salt, both
  -- libraries do their work and its file can be written. It stays marked as invalid.
  pub plain_text-block_read :
      (s : System) (packed sealed : List ℕ)
      → length contents + salt_length ≤ 2 ^ 29
      → compress bz (salted lib contents (s.draws + 1 + 1)) ≡ ok packed
      → encrypt lib packed key ≡ ok sealed
      → os.writable (block_to_filename {Act = Act} lib os base (made lib base key s.draws sealed))
        ≡ true
      → (b : Block Act) × (s1 : System) × (s2 : System) × (b' : Block Act) × (block_by_content lib
            bz
            (fs_transport base)
            key
            contents
            s
          ≡ ok (b, s1))
        × (block_write lib os b s1 ≡ ok (tt, s2))
        × (block_read lib os (block_by_id lib bz (fs_transport base) key b.id) s2 ≡ ok (b', s2))
        × (plain_text lib bz b' ≡ ok contents)
        × (b'.status ≡ block_status_invalid)
  plain_text-block_read s packed sealed small pe se writable =
      let b : Block Act = made lib base key s.draws sealed in
      let s1 : System = record s { draws = s.draws + 1 + 1 + 1 } in
      let (w, r) = block_read-block_write lib os base key bz b s1 refl writable in
      (
        b,
        s1,
        stored lib os base key b s1,
        fetched lib os base key b,
        block_by_content-made s packed sealed small pe se,
        w,
        r,
        (plain_text-set_content lib bz contents (fetched lib os base key b)
            (record s { draws = s.draws + 1 + 1 }) packed sealed small pe se).1,
        refl,
      )
