-- ===== src/Protocol/Draining.antt =====
-- The dispatch of version-1/protocol.c only takes bytes out of a read buffer.
use cryptar.Prelude.{
  ℕ, zero, suc, ◌≤◌, ◌≡◌, sym, ap, ◌∙◌, subst, Option, Result, ok, fault, pure, run_next,
  run_next-ok, ok-inj, pure-Keeps, lift-Keeps, ◌>>=◌, arith,
}
use cryptar.Ios
use cryptar.Ios.{IosBuf, buffer_size}
use cryptar.Ios.Valid.{IsValid}
use cryptar.Process.{Env, Process, Proc}
use cryptar.Process.Input.{KeepsInput}
use cryptar.Protocol
use cryptar.Protocol.{ProtoHello, ProtoHelloAck, next_packet}
use cryptar.Protocol.Arrival.{waits, stops, takes, next_packet-Arrival}
use cryptar.Protocol.Dispatch.{
  Command, hello, hello_ack, bye_packet, put_block, put_block_ack, get_block, get_block_ack,
  unknown, Outcome, done, incomplete, garbled, command_of, receive, handle,
  read_and_dispatch_one_command, read_and_dispatch_commands,
}
use cryptar.Protocol.Input.{receive-KeepsInput}

-- A valid read buffer is valid after `m`, if that returns, and has no more unread bytes than before.
pub record Drains (env : Env) {A : Type 0} (m : Proc env A) : Type 0 where
  pub drained :
      (p : Process env.lib) {a : A} {p' : Process env.lib}
      → IsValid p.read_buf
      → m p ≡ ok (a, p')
      → IsValid p'.read_buf × (buffer_size p'.read_buf ≤ buffer_size p.read_buf)

module _ (env : Env) where
  pub keeps-Drains : {A : Type 0} {m : Proc env A} → KeepsInput env m → Drains env m
  keeps-Drains k = record {
    drained = λ p v run.
        let same = sym (k.same p run) in (subst IsValid same v, omega (arith, ap buffer_size same));
  }

  >>=-Drains :
      {A B : Type 0} {m : Proc env A} {k : A → Proc env B}
      → Drains env m
      → ((a : A) → Drains env (k a))
      → Drains env (m >>= k)
  >>=-Drains {m = m} {k = k} h g = record {
    drained = λ p v run.
        let (a, q, first, rest) = run_next-ok (m p) k run in
        let (v1, less1) = h.drained p v first in
        let (v2, less2) = (g a).drained q v1 rest in (v2, omega arith);
  }

module _ (env : Env) (accept_hello : ProtoHello → Proc env (Unit {0}))
    (accept_hello_ack : ProtoHelloAck → Proc env (Unit {0})) where
  -- What `take_packet` makes of the read buffer.
  abbrev pub taken :
      (p : Process env.lib)
      → Result (Option (ℕ × IosBuf) × IosBuf)
      → Result (Option (ℕ × IosBuf) × Process env.lib)
  taken p (fault e) = fault e
  taken p (ok (packet, rest)) = ok (packet, record p { read_buf = rest })

  pub taken-run :
      (p : Process env.lib) {r : Result (Option (ℕ × IosBuf) × IosBuf)}
      → next_packet p.read_buf ≡ r
      → read_and_dispatch_one_command env accept_hello accept_hello_ack p
        ≡ run_next (taken p r) (handle env accept_hello accept_hello_ack)
  unfolding read_and_dispatch_one_command
  taken-run p {r} e = ap (λ t. run_next (taken p t) (handle env accept_hello accept_hello_ack)) e

module _ (env : Env) (accept_hello : ProtoHello → Proc env (Unit {0}))
    (accept_hello_ack : ProtoHelloAck → Proc env (Unit {0}))
    (h : (ph : ProtoHello) → Drains env (accept_hello ph))
    (a : (pha : ProtoHelloAck) → Drains env (accept_hello_ack pha)) where
  pub receive-Drains :
      (cmd : Command) (packet : IosBuf)
      → Drains env (receive env accept_hello accept_hello_ack cmd packet)
  receive-Drains hello packet =
      unfold receive in
      >>=-Drains env (keeps-Drains env (lift-Keeps (Ios.parsed Protocol.receive_hello packet)))
        (λ ph. >>=-Drains env (h ph) (λ u. keeps-Drains env (pure-Keeps done)))
  receive-Drains hello_ack packet =
      unfold receive in
      >>=-Drains env (keeps-Drains env (lift-Keeps (Ios.parsed Protocol.receive_hello_ack packet)))
        (λ pha. >>=-Drains env (a pha) (λ u. keeps-Drains env (pure-Keeps done)))
  receive-Drains bye_packet packet =
      keeps-Drains env
        (receive-KeepsInput env accept_hello accept_hello_ack bye_packet packet (λ e. cc) (λ e. cc))
  receive-Drains put_block packet =
      keeps-Drains env
        (receive-KeepsInput env accept_hello accept_hello_ack put_block packet (λ e. cc) (λ e. cc))
  receive-Drains put_block_ack packet = keeps-Drains env (
      receive-KeepsInput env accept_hello accept_hello_ack put_block_ack packet (λ e. cc) (λ e. cc))
  receive-Drains get_block packet =
      keeps-Drains env
        (receive-KeepsInput env accept_hello accept_hello_ack get_block packet (λ e. cc) (λ e. cc))
  receive-Drains get_block_ack packet = keeps-Drains env (
      receive-KeepsInput env accept_hello accept_hello_ack get_block_ack packet (λ e. cc) (λ e. cc))
  receive-Drains unknown packet =
      keeps-Drains env
        (receive-KeepsInput env accept_hello accept_hello_ack unknown packet (λ e. cc) (λ e. cc))

  one_command-Drains : Drains env (read_and_dispatch_one_command env accept_hello accept_hello_ack)
  one_command-Drains = record {
    drained = λ p v run. elim (next_packet-Arrival p.read_buf v) [
      | waits e ↦
          let same : p.read_buf ≡ _ =
            ap (λ q. q.read_buf)
              (ok-inj (sym (taken-run env accept_hello accept_hello_ack p e) ∙ run)).1 in
          (subst IsValid same v, omega (arith, ap buffer_size same))
      | stops x e ↦
          absurd (let y = sym (taken-run env accept_hello accept_hello_ack p e) ∙ run in cc)
      | takes cmd packet rest e v' less ↦
          let p1 : Process env.lib = record p { read_buf = rest } in
          let (v2, less2) =
            (receive-Drains (command_of cmd) packet).drained p1 v'
              (sym (taken-run env accept_hello accept_hello_ack p e) ∙ run) in
          (v2, omega arith)
    ];
  }

  -- So does the whole loop, and a handler that runs it again inside of it.
  pub read_and_dispatch_commands-Drains :
      (fuel : ℕ) → Drains env (read_and_dispatch_commands env accept_hello accept_hello_ack fuel)
  unfolding read_and_dispatch_commands
  read_and_dispatch_commands-Drains zero = record { drained = λ p v run. cc }
  read_and_dispatch_commands-Drains (suc fuel) =
      >>=-Drains env one_command-Drains λ ret. after ret (read_and_dispatch_commands-Drains fuel)
    where
      after :
          (ret : Outcome) {m : Proc env (Unit {0})}
          → Drains env m
          → Drains env (elim ret [ done ↦ m | incomplete ↦ pure tt | garbled ↦ pure tt ])
      after done d = d
      after incomplete d = keeps-Drains env (pure-Keeps tt)
      after garbled d = keeps-Drains env (pure-Keeps tt)
