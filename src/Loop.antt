-- ===== src/Loop.antt =====
-- version-1/io.c: the handlers that the event loop of glib calls. What a channel reads or accepts is
-- an argument.
use cryptar.Prelude.{
  ℕ, Bool, true, false, Option, none, some, List, ◌==◌, if◌then◌else◌, ok, fault, assertion_failed,
  and_then, pure, get, ◌>>=◌, ◌>>◌,
}
use cryptar.Ios
use cryptar.Ios.{IosBuf}
use cryptar.Process
use cryptar.Process.{Env, Process, Proc}
use cryptar.Protocol.{ProtoHello, ProtoHelloAck}
use cryptar.Protocol.Dispatch.{read_and_dispatch_commands}
use cryptar.Tickets.Work.{process_queue}

module _ (env : Env) where
  -- The bytes that the channel has taken are read; what `ios_read` refuses is a failed assertion.
  unfoldable pub wrote : ℕ → Proc env Bool
  wrote n p = and_then (Ios.read n p.write_buf) λ (bytes, rest). elim bytes [
    | none ↦ fault assertion_failed
    | some _ ↦ ok (true, record p { write_buf = rest })
  ]

  abbrev unwatch : Proc env Bool
  unwatch p = ok (false, record p { output_watched = false })

  -- With nothing to send the handler is removed, and the loop ends if no output is to come.
  abbrev idle : Proc env Bool
  idle p = unwatch (if p.ignore_output then record p { running = false } else p)

  -- `accept` is what `g_io_channel_write` writes of a number of bytes, `none` if it fails.
  abbrev write_out : (accept : ℕ → Option ℕ) → Proc env Bool
  write_out accept p = elim (accept (Ios.buffer_size p.write_buf)) [
    | none ↦ unwatch p
    | some n ↦ wrote n p
  ]

  unfoldable pub io_output_handler : (hung_up : Bool) (accept : ℕ → Option ℕ) → Proc env Bool
  io_output_handler hung_up accept =
      if hung_up
      then (Process.quit_main_loop env >> unwatch)
      else (get >>= λ p.
          (if Ios.buffer_size p.write_buf == 0 then process_queue env else pure tt)
          >> (get >>= λ q. if Ios.buffer_size q.write_buf == 0 then idle else write_out accept))

module _ (env : Env) (accept_hello : ProtoHello → Proc env (Unit {0}))
    (accept_hello_ack : ProtoHelloAck → Proc env (Unit {0})) where
  -- The result, whether the handler stays registered, is false only where input has ended.
  unfoldable pub io_input_handler : (fuel : ℕ) (hung_up : Bool) (arrived : List ℕ) → Proc env Bool
  io_input_handler fuel hung_up arrived p =
      if p.ignore_input
      then ok (false, p)
      else if hung_up
      then ok (false, record p { running = false })
      else (and_then (Ios.append arrived p.read_buf) λ (_, ios).
          (read_and_dispatch_commands env accept_hello accept_hello_ack fuel >> pure true)
            (record p { read_buf = ios }))
