-- ===== src/Protocol/Termination.antt =====
-- The loop of `read_and_dispatch_commands` of version-1/protocol.c.
use cryptar.Prelude.{
  ℕ, zero, suc, ◌*◌, ◌<◌, ◌≡◌, ◌≢◌, refl, sym, ◌∙◌, subst, Result, ok, fault, Fault, pure, run_next,
  arith,
}
use cryptar.Ios.{buffer_size}
use cryptar.Ios.Valid.{IsValid}
use cryptar.Process.{Env, Process, Proc}
use cryptar.Protocol.{ProtoHello, ProtoHelloAck}
use cryptar.Protocol.Arrival.{waits, stops, takes, next_packet-Arrival}
use cryptar.Protocol.Dispatch.{
  Outcome, done, incomplete, garbled, command_of, read_and_dispatch_one_command,
  read_and_dispatch_commands,
}
use cryptar.Protocol.Draining.{Drains, taken-run, receive-Drains}

module _ (env : Env) (accept_hello : ProtoHello → Proc env (Unit {0}))
    (accept_hello_ack : ProtoHelloAck → Proc env (Unit {0})) where
  abbrev one_command : Proc env Outcome
  one_command = read_and_dispatch_one_command env accept_hello accept_hello_ack

  -- A run of commands to its end, and what it leaves: a command stops the process, or the packet is not
  -- there in full or unknown, or a command is done and the run goes on.
  pub data Dispatched : Process env.lib → Result (Unit {0} × Process env.lib) → Type 0 where
    stopped :
        {p : Process env.lib} {e : Fault}
        → read_and_dispatch_one_command env accept_hello accept_hello_ack p ≡ fault e
        → Dispatched p (fault e)
    ended :
        {p q : Process env.lib} {ret : Outcome}
        → read_and_dispatch_one_command env accept_hello accept_hello_ack p ≡ ok (ret, q)
        → ret ≢ done
        → Dispatched p (ok (tt, q))
    continued :
        {p q : Process env.lib} {r : Result (Unit {0} × Process env.lib)}
        → read_and_dispatch_one_command env accept_hello accept_hello_ack p ≡ ok (done, q)
        → Dispatched q r
        → Dispatched p r

  loop : ℕ → Proc env (Unit {0})
  loop = read_and_dispatch_commands env accept_hello accept_hello_ack

  next : ℕ → Outcome → Proc env (Unit {0})
  next fuel ret = elim ret [ done ↦ loop fuel | incomplete ↦ pure tt | garbled ↦ pure tt ]

  -- The loop after a command.
  goes_on :
      (fuel : ℕ) (p : Process env.lib) (r : Result (Outcome × Process env.lib))
      → one_command p ≡ r
      → ((q : Process env.lib) → r ≡ ok (done, q) → Dispatched q (loop fuel q))
      → Dispatched p (run_next r (next fuel))
  unfolding next
  goes_on fuel p (fault e) run h = stopped run
  goes_on fuel p (ok (done, q)) run h = continued run (h q refl)
  goes_on fuel p (ok (incomplete, q)) run h = ended run (λ e. cc)
  goes_on fuel p (ok (garbled, q)) run h = ended run (λ e. cc)

  -- The loop by its rounds.
  loop-next :
      (fuel : ℕ) (p : Process env.lib) → run_next (one_command p) (next fuel) ≡ loop (suc fuel) p
  unfolding loop next read_and_dispatch_commands
  loop-next fuel p = refl

  -- If the handlers of a hello and of its answer leave a valid read buffer valid and with no more unread
  -- bytes, as they do if they only dispatch more of it themselves and no more arrives than that takes out,
  -- then the loop runs to its end on any valid read buffer: with any fuel of which five times is more
  -- than the number of unread bytes, its result is that of a run of commands to its end.
  pub read_and_dispatch_commands-Dispatched :
      (fuel : ℕ) (p : Process env.lib)
      → ((ph : ProtoHello) → Drains env (accept_hello ph))
      → ((pha : ProtoHelloAck) → Drains env (accept_hello_ack pha))
      → IsValid p.read_buf
      → buffer_size p.read_buf < 5 * fuel
      → Dispatched p (read_and_dispatch_commands env accept_hello accept_hello_ack fuel p)
  unfolding loop next
  read_and_dispatch_commands-Dispatched zero p h a v m = absurd (omega arith)
  read_and_dispatch_commands-Dispatched (suc fuel) p h a v m =
      subst (Dispatched p) (loop-next fuel p) (
        goes_on fuel p (one_command p) refl λ q run. elim (next_packet-Arrival p.read_buf v) [
          | waits e ↦
              absurd (let x = sym (taken-run env accept_hello accept_hello_ack p e) ∙ run in cc)
          | stops x e ↦
              absurd (let y = sym (taken-run env accept_hello accept_hello_ack p e) ∙ run in cc)
          | takes cmd packet rest e v' less ↦
              let p1 : Process env.lib = record p { read_buf = rest } in
              let (v2, less2) =
                (receive-Drains env accept_hello accept_hello_ack h a (command_of cmd)
                    packet).drained
                  p1 v' (sym (taken-run env accept_hello accept_hello_ack p e) ∙ run) in
              read_and_dispatch_commands-Dispatched fuel q h a v2 (omega arith)
        ])
