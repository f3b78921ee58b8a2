-- ===== src/Process.antt =====
-- The state that the functions of a client or a server share, and version-1/io.c: the two buffers
-- and the flags that stop input and output.
--
-- `Env` has the libraries, the options and the preferences that a process runs with. glib's channels
-- are not modelled: `output_watched` says that the output handler is registered, and what a channel
-- reads or accepts is an argument of the handlers.
pub mod Input
pub mod Sealing
use Prim.Native.Nat.{Ordering}
use cryptar.Prelude.{
  ℕ, suc, ◌+◌, Bool, true, false, Option, none, some, List, if◌then◌else◌, Result, ok, fault,
  null_dereference, and_then, State, pure, get, put, lift, ◌>>=◌, ◌>>◌,
}
use cryptar.Ios
use cryptar.Ios.{IosBuf, Stream}
use cryptar.Hash.{HashState, Hash}
use cryptar.Block.{DbBlock}
use cryptar.Database.{BerkeleyDb, Handles, Store}
use cryptar.Compress
use cryptar.Encryption
use cryptar.Tickets.{WorkTicket}
use cryptar.Protocol

pub record Env : Type 1 where
  pub lib : BerkeleyDb
  pub sort : (DbBlock → DbBlock → Ordering) → List DbBlock → List DbBlock
  pub sha1 : List ℕ → List ℕ
  pub compress : List ℕ → Option (List ℕ)
  pub uncompress : List ℕ → ℕ → Option (List ℕ)
  pub ctr : List ℕ → List ℕ → List ℕ → List ℕ
  pub key : List ℕ
  pub yarrow : ℕ → List ℕ
  pub block_length : ℕ
  pub server : Bool
  pub backup : Bool
  pub extract : Bool

-- `draws` counts the vectors that were drawn from the random generator; `running` is the main loop.
pub record Process (lib : BerkeleyDb) : Type 0 where
  pub dbs : Handles lib
  pub hash : HashState
  pub work_list : List WorkTicket
  pub more_work : Bool
  pub read_buf : IosBuf
  pub write_buf : IosBuf
  pub ignore_input : Bool
  pub ignore_output : Bool
  pub output_watched : Bool
  pub running : Bool
  pub draws : ℕ

abbrev pub bye : Protocol.ProtoBye
bye = record { version = 0; error = 0 }

module _ (env : Env) where
  abbrev pub Proc : Type 0 → Type 0
  Proc A = State (Process env.lib) A

  -- A function that uses the databases, or the hash table, and nothing else.
  abbrev pub with_dbs : {A : Type 0} → Store env.lib A → Proc A
  with_dbs m p = and_then (m p.dbs) λ (a, dbs). ok (a, record p { dbs = dbs })

  abbrev pub with_hash : {A : Type 0} → Hash A → Proc A
  with_hash m p = and_then (m p.hash) λ (a, hash). ok (a, record p { hash = hash })

  unfoldable pub io_write_reg : Proc (Unit {0})
  io_write_reg p = ok (tt, record p { output_watched = true })

  unfoldable pub io_no_more_input : Proc (Unit {0})
  io_no_more_input p = ok (tt, record p { ignore_input = true })

  unfoldable pub io_no_more_output : Proc (Unit {0})
  io_no_more_output p = ok (tt, record p { ignore_output = true })

  unfoldable pub quit_main_loop : Proc (Unit {0})
  quit_main_loop p = ok (tt, record p { running = false })

  -- `io_send_ios`, with the test for output that is ignored.
  unfoldable pub io_send_ios : IosBuf → Proc (Unit {0})
  io_send_ios ios p =
      if p.ignore_output
      then ok (tt, p)
      else (and_then (Protocol.io_send_ios ios p.write_buf)
          λ (_, out). ok (tt, record p { write_buf = out; output_watched = true }))

  -- A `send_*` function: the packet goes to a buffer of its own first.
  unfoldable pub send : Stream (Unit {0}) → Proc (Unit {0})
  send packet = do ios ← lift (Ios.written packet); io_send_ios ios

  unfoldable pub send_bye : Protocol.ProtoBye → Proc (Unit {0})
  send_bye b = do
    ios ← lift (Ios.written (Protocol.send_bye b))
    io_no_more_input
    io_send_ios ios
    io_no_more_output

  abbrev pub some_ios : Option IosBuf → Proc IosBuf
  some_ios none p = fault null_dereference
  some_ios (some ios) p = ok (ios, p)

  -- A vector of the random generator, by its number.
  unfoldable pub draw : Proc ℕ
  draw p = ok (p.draws, record p { draws = p.draws + 1 })

  -- `encrypt(do_compress(ios))` for a new buffer of the given bytes. A vector is drawn even if `encrypt`
  -- then returns NULL, which no caller accepts.
  unfoldable pub seal : List ℕ → Proc IosBuf
  seal bytes = do
    ios1 ← lift (Ios.buffer_of bytes)
    ios2 ← lift (Compress.do_compress env.compress ios1)
    n ← draw
    sealed ← lift (Encryption.encrypt env.ctr env.key (env.yarrow n) ios2)
    some_ios sealed

  unfoldable pub unseal : IosBuf → ℕ → Result IosBuf
  unseal ios n =
      and_then (Encryption.decrypt env.ctr env.key ios)
        λ ios1. Compress.do_decompress env.uncompress ios1 n
