-- ===== src/Constants.antt =====
-- version-1/constants.c: named constants in their database.
pub mod RoundTrip
pub mod Missing
use cryptar.Prelude.{ℕ, Option, List, Result, lift, pure, ◌>>=◌, ◌>>◌}
use cryptar.Ios
use cryptar.Database
use cryptar.Database.{constants, BerkeleyDb, Store}

module _ (lib : BerkeleyDb) where
  unfoldable pub put_string : (key val : List ℕ) → Store lib (Unit {0})
  put_string key val = do
    ios_key ← lift (Ios.buffer_of key)
    ios_data ← lift (Ios.written (Ios.append_string val))
    Database.db_put lib constants ios_key ios_data

  -- Where the key is missing, `ios_read_str` reads beyond the bytes of the empty buffer.
  unfoldable pub get_string : (key : List ℕ) → Store lib (Option (List ℕ))
  get_string key = do
    ios_key ← lift (Ios.buffer_of key)
    ios_data ← Database.db_get lib constants ios_key Ios.new
    lift (Ios.parsed Ios.read_str ios_data)

  unfoldable pub put_int : (key : List ℕ) (val : ℕ) → Store lib (Unit {0})
  put_int key val = do
    ios_key ← lift (Ios.buffer_of key)
    ios_data ← lift (Ios.written (Ios.append_int32 val))
    Database.db_put lib constants ios_key ios_data

  unfoldable pub get_int : (key : List ℕ) → Store lib ℕ
  get_int key = do
    ios_key ← lift (Ios.buffer_of key)
    ios_data ← Database.db_get lib constants ios_key Ios.new
    lift (Ios.parsed Ios.read_int32 ios_data)
