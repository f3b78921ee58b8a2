-- ===== src/Covering/Update.antt =====
-- version-1/covering.c: the entry points `cover_update_remote`, `cover_fill_block` and
-- `cover_save_local`. The block length is a preference, the file length that of the summary.
use Prim.Native.Nat.{Ordering}
use cryptar.Prelude.{
  ℕ, Bool, some, List, [], ◌∷◌, ◌==◌, if◌then◌else◌, take, drop, length, ◌||◌, Result, ok, fault,
  assertion_failed, and_then, pure, lift, ◌>>=◌, ◌>>◌,
}
use cryptar.Block
use cryptar.Block.{DbBlock}
use cryptar.Block.Store
use cryptar.Checksum.{wc_sum_get, schar}
use cryptar.Checksum.Window.{make_hash}
use cryptar.Database
use cryptar.Database.{BerkeleyDb, Store, blocks}
use cryptar.Hash
use cryptar.Hash.{Hash}
use cryptar.Covering.{complete_cover, cover_hash}

module _ (sort : (DbBlock → DbBlock → Ordering) → List DbBlock → List DbBlock)
    (sha1 : List ℕ → List ℕ) where
  -- Without old blocks there is nothing to look up.
  look_up : List ℕ → ℕ → List DbBlock → Hash (List DbBlock)
  look_up file block_length [] = pure []
  look_up file block_length (b ∷ bs) = do
    make_hash file block_length
    found ← cover_hash sha1 file (b ∷ bs)
    Hash.destroy
    pure found

  unfoldable pub update_remote :
      (file : List ℕ) (block_length file_length : ℕ) → List DbBlock → Hash (List DbBlock)
  unfolding look_up
  update_remote file block_length file_length block_list = do
    found ← look_up file block_length block_list
    lift (complete_cover sort block_length file_length found)

module _ (sha1 : List ℕ → List ℕ) where
  -- Where the file ends inside of the block, the rest of the data is not initialised and is left out.
  unfoldable pub fill_block : (file : List ℕ) → DbBlock → Result DbBlock
  fill_block file dbb =
      let bytes = take dbb.block_length (drop dbb.offset file) in
      if dbb.block_length == 0 || dbb.local_id == 0
      then fault assertion_failed
      else (and_then (wc_sum_get schar bytes (length bytes)) λ weak.
          ok (record dbb {
            payload = some bytes;
            weak_checksum = weak;
            strong_checksum = sha1 bytes;
          }))

module _ (lib : BerkeleyDb) where
  -- What `cover_save_local` does to one block.
  unfoldable pub save_block : (server : Bool) → DbBlock → Store lib DbBlock
  save_block server dbb =
      if dbb.local_id == 0
      then (Database.get_next_index lib server blocks >>= λ id.
          let named : DbBlock = record dbb { local_id = id } in
          (if named.remote_id == 0 then pure tt else Block.Store.add lib named) >> pure named)
      else pure dbb

  unfoldable pub save_local : (server : Bool) → List DbBlock → Store lib (List DbBlock)
  save_local server [] = pure []
  save_local server (dbb ∷ block_list) = do
    saved ← save_block server dbb
    rest ← save_local server block_list
    pure (saved ∷ rest)
