-- ===== src/Key/Mismatch.antt =====
-- `db_key_add` against `db_key_fetch` of version-1/key.c.
use cryptar.Prelude.{
  ℕ, ◌+◌, ◌^◌, ◌≤◌, ◌<◌, ◌≡◌, ◌≢◌, refl, ◌∙◌, Bool, true, false, Option, none, some, List, ◌++◌,
  length, ok, arith, be16, be32,
}
use cryptar.Ios
use cryptar.Ios.{IosBuf}
use cryptar.Ios.Valid.{new-IsValid}
use cryptar.Ios.Codec.{Emits, >>-Emits}
use cryptar.Ios.Fields.{append_int16-Emits, append_int32-Emits, append_string-Emits, buffer-none}
use cryptar.Ios.Buffers.{Holds, buffer_of-Holds, written-Holds, unread-Holds}
use cryptar.Database.{keys, index_of, BerkeleyDb, Handles, set_handle, db_get}
use cryptar.Database.Laws.{Counter, counters, get_next_index-run, get_bytes-run}
use cryptar.Database.RoundTrip.{db_put-run, set_handle-same, lookup-missing}
use cryptar.Key.{DbKey, to_stream, from_stream, add, fetch}

abbrev pub key_bytes : List ℕ → List ℕ
key_bytes key_val = be16 0 ++ (be32 (length key_val) ++ key_val)

to_stream-Emits : (key_val : List ℕ) → Emits (to_stream key_val) (key_bytes key_val)
unfolding to_stream
to_stream-Emits key_val = >>-Emits (append_int16-Emits 0) (append_string-Emits key_val)

from_stream-empty : (id : ℕ) → from_stream id (Ios.reset Ios.new) ≡ ok (none, Ios.reset Ios.new)
unfolding from_stream Ios.reset
from_stream-empty id = rw (buffer-none new-IsValid refl, from_stream) refl

module _ (lib : BerkeleyDb) where
  counters-keys :
      (server : Bool) (h : Handles lib) (p : Option lib.Db)
      → set_handle lib h (counters server) p keys ≡ h keys
  counters-keys true h p = refl
  counters-keys false h p = refl

  db_get-none :
      (kb : List ℕ) (key_in : IosBuf) (h : Handles lib) (db : lib.Db)
      → Holds kb key_in
      → h keys ≡ some db
      → lib.lookup db kb ≡ none
      → db_get lib keys key_in Ios.new h ≡ ok (Ios.reset Ios.new, h)
  unfolding db_get
  db_get-none kb key_in h db k e missing =
      rw (unread-Holds kb k, get_bytes-run lib keys kb h db e, missing) refl

  -- If the counter of keys is below its limit and both writes succeed, a key of at most 2 ^ 29 bytes gets
  -- the next index of the counter as its id when it is added; unless the key is the four bytes of that
  -- id, or a record was there under them, a fetch of the id finds no key.
  pub key_fetch-add :
      (server : Bool) (key_val : List ℕ) (n : ℕ) (h : Handles lib) (cdb cdb' db db' : lib.Db)
      → length key_val ≤ 2 ^ 29
      → n + 1 < 2 ^ 32
      → h (counters server) ≡ some cdb
      → Counter lib cdb keys n
      → lib.store cdb (be32 (index_of keys)) (be32 (n + 1)) ≡ some cdb'
      → h keys ≡ some db
      → lib.store db key_val (key_bytes key_val) ≡ some db'
      → key_val ≢ be32 (n + 1)
      → lib.lookup db (be32 (n + 1)) ≡ none
      → (h' : Handles lib) × (dbk : DbKey) × (add lib server key_val h ≡ ok (dbk, h'))
        × (dbk.key_id ≡ n + 1)
        × (fetch lib dbk.key_id h' ≡ ok (none, h'))
  unfolding add fetch
  key_fetch-add server key_val n h cdb cdb' db db' short small e counter counted e' stored ne
        missing =
      let h1 : Handles lib = set_handle lib h (counters server) (some cdb') in
      let same : h1 keys ≡ some db = counters-keys server h (some cdb') ∙ e' in
      let h2 : Handles lib = set_handle lib h1 keys (some db') in
      let (k, ek, pk) = buffer_of-Holds key_val (omega arith) in
      let index_run = get_next_index-run lib server keys n h cdb cdb' small e counter counted in
      let (d, ed, pd) = written-Holds (to_stream-Emits key_val) (omega arith) in
      let put_run =
        db_put-run lib keys key_val (key_bytes key_val) k d h1 db db' pk pd same stored in
      let (i, ei, pi) = written-Holds (append_int32-Emits (n + 1)) (omega arith) in
      let get_run =
        db_get-none (be32 (n + 1)) i h2 db' pi (set_handle-same lib h1 keys (some db')) (
          lookup-missing lib db db' key_val (key_bytes key_val) (be32 (n + 1)) stored ne missing) in
      (
        h2,
        record { key_id = n + 1; version = 0; key = some key_val },
        rw (ek, index_run, ed, put_run) refl,
        refl,
        rw (ei, get_run, from_stream-empty (n + 1)) refl,
      )
