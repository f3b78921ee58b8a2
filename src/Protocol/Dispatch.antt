-- ===== src/Protocol/Dispatch.antt =====
-- version-1/protocol.c: the dispatch of the packets that have arrived.
--
-- `accept_hello` and `accept_hello_ack` are arguments: the source of the first is in part pseudo-code,
-- that of what the second calls uses a name that it does not declare, and neither compiles.
use cryptar.Prelude.{
  ℕ, zero, suc, Option, none, some, ◌==◌, if◌then◌else◌, ok, fault, out_of_fuel, pure, stop, lift,
  ◌>>=◌, ◌>>◌,
}
use cryptar.Ios
use cryptar.Ios.{IosBuf}
use cryptar.Protocol
use cryptar.Protocol.{ProtoHello, ProtoHelloAck}
use cryptar.Protocol.Server
use cryptar.Protocol.Client
use cryptar.Process
use cryptar.Process.{Env, Proc, bye}

-- What `read_and_dispatch_one_command` returns: 0, 1 or -2.
pub data Outcome : Type 0 where
  done incomplete garbled : Outcome

pub data Command : Type 0 where
  hello hello_ack bye_packet put_block put_block_ack get_block get_block_ack unknown : Command

-- The `switch` on the first byte.
abbrev pub command_of : ℕ → Command
command_of cmd =
    if cmd == Protocol.cmd_hello
    then hello
    else if cmd == Protocol.cmd_hello_ack
    then hello_ack
    else if cmd == Protocol.cmd_bye
    then bye_packet
    else if cmd == Protocol.cmd_put_block
    then put_block
    else if cmd == Protocol.cmd_put_block_ack
    then put_block_ack
    else if cmd == Protocol.cmd_get_block
    then get_block
    else if cmd == Protocol.cmd_get_block_ack
    then get_block_ack
    else unknown

module _ (env : Env) (accept_hello : ProtoHello → Proc env (Unit {0}))
    (accept_hello_ack : ProtoHelloAck → Proc env (Unit {0})) where
  -- `receive_bye` once the packet is read: the server says goodbye too.
  unfoldable pub hang_up : Proc env (Unit {0})
  hang_up = do if env.server then Process.send_bye env bye else pure tt; Process.quit_main_loop env

  -- The `receive_*` functions: the packet is parsed, and what was read is accepted.
  unfoldable pub receive : Command → IosBuf → Proc env Outcome
  receive hello packet = do
    ph ← lift (Ios.parsed Protocol.receive_hello packet)
    accept_hello ph
    pure done
  receive hello_ack packet = do
    pha ← lift (Ios.parsed Protocol.receive_hello_ack packet)
    accept_hello_ack pha
    pure done
  receive bye_packet packet = do lift (Ios.parsed Protocol.receive_bye packet); hang_up; pure done
  receive put_block packet = do
    pb ← lift (Ios.parsed (Protocol.receive_data Protocol.cmd_put_block) packet)
    Server.accept_put_block env pb
    pure done
  receive put_block_ack packet = do
    pba ← lift (Ios.parsed Protocol.receive_put_ack packet)
    Client.accept_put_ack env pba
    pure done
  receive get_block packet = do
    gb ← lift (Ios.parsed Protocol.receive_get_block packet)
    Server.accept_get_block env gb
    pure done
  receive get_block_ack packet = do
    gba ← lift (Ios.parsed (Protocol.receive_data Protocol.cmd_get_block_ack) packet)
    Client.accept_get_ack env gba
    pure done
  receive unknown packet = pure garbled

  -- The packet goes out of the read buffer before it is handled.
  abbrev pub take_packet : Proc env (Option (ℕ × IosBuf))
  take_packet p = elim (Protocol.next_packet p.read_buf) [
    | fault e ↦ fault e
    | ok (packet, rest) ↦ ok (packet, record p { read_buf = rest })
  ]

  abbrev pub handle : Option (ℕ × IosBuf) → Proc env Outcome
  handle none = pure incomplete
  handle (some (cmd, packet)) = receive (command_of cmd) packet

  unfoldable pub read_and_dispatch_one_command : Proc env Outcome
  read_and_dispatch_one_command = take_packet >>= handle

  -- `read_and_dispatch_commands`: whatever ends the loop, it returns 0.
  unfoldable pub read_and_dispatch_commands : (fuel : ℕ) → Proc env (Unit {0})
  read_and_dispatch_commands zero = stop out_of_fuel
  read_and_dispatch_commands (suc fuel) = read_and_dispatch_one_command >>= λ ret. elim ret [
    | done ↦ read_and_dispatch_commands fuel
    | incomplete ↦ pure tt
    | garbled ↦ pure tt
  ]
