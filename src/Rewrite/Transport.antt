-- ===== src/Rewrite/Transport.antt =====
-- src/transport.h and src/transport.cpp, with the `write` and `read` of src/block.cpp that call it.
pub mod Fetching
pub mod Paths
use cryptar.Prelude.{
  ℕ, Bool, true, false, Option, none, some, List, [], ◌∷◌, ◌++◌, ◌==◌, if◌then◌else◌, Result, ok,
  fault, thrown, thrown_text, assertion_failed, State, pure, get, stop, ◌>>=◌, ◌>>◌,
}
use cryptar.Rewrite.System.{System, Os, write_file}
use cryptar.Rewrite.Crypt.{CryptoLib, message_digest}
use cryptar.Rewrite.Block.{Transport, none_transport, fs_transport, Block, to_stream, from_stream}

-- The path that a TransportFS is made with is empty or ends in a slash.
unfoldable pub ends_in_slash : List ℕ → Bool
ends_in_slash [] = true
ends_in_slash (b ∷ []) = b == 47
ends_in_slash (b ∷ c ∷ path) = ends_in_slash (c ∷ path)

-- The constructor of TransportFS.
unfoldable pub transport_fs : Os → (base_path : List ℕ) → Result Transport
transport_fs os [] = ok (fs_transport [])
transport_fs os (b ∷ path) =
    if ends_in_slash (b ∷ path)
    then (if os.make_dir (b ∷ path)
        then ok (fs_transport (b ∷ path))
        else fault (thrown thrown_text))
    else fault assertion_failed

module _ {Act : Type 0} (lib : CryptoLib) (os : Os) where
  unfoldable pub block_to_filename : (base_path : List ℕ) → Block Act → List ℕ
  block_to_filename base_path b = base_path ++ message_digest lib b.id true

  -- A file that cannot be opened throws a text.
  unfoldable pub transport_read : Transport → Block Act → State System (Block Act)
  transport_read none_transport b = pure b
  transport_read (fs_transport base_path) b = do
    s ← get
    elim (s.files (block_to_filename base_path b)) [
      | none ↦ stop (thrown thrown_text)
      | some payload ↦ pure (from_stream payload b)
    ]

  unfoldable pub transport_write : Transport → Block Act → State System (Unit {0})
  transport_write none_transport b = pure tt
  transport_write (fs_transport base_path) b =
      write_file os (block_to_filename base_path b) (to_stream b)

  -- `Block::read` and `Block::write`.
  unfoldable pub block_read : Block Act → State System (Block Act)
  block_read b = transport_read b.transport b

  unfoldable pub block_write : Block Act → State System (Unit {0})
  block_write b = transport_write b.transport b
