-- ===== src/Key.antt =====
-- version-1/key.c: the keys of the program in their database.
pub mod Mismatch
use cryptar.Prelude.{
  ℕ, ◌%◌, Bool, Option, none, some, List, Result, ok, State, pure, lift, ◌>>=◌, ◌>>◌,
}
use cryptar.Ios
use cryptar.Ios.{Stream}
use cryptar.Database
use cryptar.Database.{keys, BerkeleyDb, Store}

pub record DbKey : Type 0 where
  pub key_id : ℕ
  pub version : ℕ
  pub key : Option (List ℕ)

-- The data of `db_key_add`.
unfoldable pub to_stream : List ℕ → Stream (Unit {0})
to_stream key_val = do Ios.append_int16 0; Ios.append_string key_val

read_key : ℕ → Stream (Option DbKey)
read_key key_id = do
  version ← Ios.read_int16
  key ← Ios.read_str
  pure (some (record { key_id = key_id; version = version % 256; key = key }))

unfoldable pub from_stream : ℕ → Stream (Option DbKey)
unfolding read_key
from_stream key_id ios = elim (Ios.buffer ios) [
  | none ↦ ok (none, ios)
  | some _ ↦ read_key key_id ios
]

module _ (lib : BerkeleyDb) where
  -- The record is stored under the text of the key.
  unfoldable pub add : (server : Bool) (key_val : List ℕ) → Store lib DbKey
  add server key_val = do
    key ← lift (Ios.buffer_of key_val)
    id ← Database.get_next_index lib server keys
    value ← lift (Ios.written (to_stream key_val))
    Database.db_put lib keys key value
    pure (record { key_id = id; version = 0; key = some key_val })

  -- It is looked up under the bytes of the id.
  unfoldable pub fetch : (key_id : ℕ) → Store lib (Option DbKey)
  fetch key_id = do
    key ← lift (Ios.written (Ios.append_int32 key_id))
    value ← Database.db_get lib keys key Ios.new
    lift (Ios.parsed (from_stream key_id) value)
