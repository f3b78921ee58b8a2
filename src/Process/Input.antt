-- ===== src/Process/Input.antt =====
-- The operations of a process, its read buffer and its work list.
use cryptar.Prelude.{
  ℕ, ◌≡◌, refl, sym, ap, ◌∙◌, Bool, true, false, Option, none, some, List, Result, ok, fault,
  and_then, length, if◌then◌else◌, Keeps, pure-Keeps, lift-Keeps, >>=-Keeps, ok-inj,
}
use cryptar.Ios.{IosBuf, Stream}
use cryptar.Hash.{Hash}
use cryptar.Database.{Store}
use cryptar.Protocol
use cryptar.Process.{
  Env, Process, Proc, with_dbs, with_hash, io_write_reg, io_no_more_input, io_no_more_output,
  quit_main_loop, io_send_ios, send, send_bye, some_ios, seal, draw,
}

-- A view of the state that depends on the read buffer and the work list only.
pub record IsOfQueues (env : Env) {V : Type 0} (f : Process env.lib → V) : Type 0 where
  pub same :
      (p q : Process env.lib) → p.read_buf ≡ q.read_buf → p.work_list ≡ q.work_list → f p ≡ f q

-- `m` does not touch the read buffer.
abbrev pub KeepsInput : (env : Env) {A : Type 0} → Proc env A → Type 0
KeepsInput env m = Keeps (λ p. p.read_buf) m

-- `m` leaves the length of the work list.
abbrev pub KeepsWork : (env : Env) {A : Type 0} → Proc env A → Type 0
KeepsWork env m = Keeps (λ p. length p.work_list) m

module _ (env : Env) where
  pub read_buf-IsOfQueues : IsOfQueues env (λ p. p.read_buf)
  read_buf-IsOfQueues = record { same = λ p q e w. e }

  pub work_list-IsOfQueues : IsOfQueues env (λ p. length p.work_list)
  work_list-IsOfQueues = record { same = λ p q e w. ap length w }

  -- A change of some fields.
  pub changed :
      {A V : Type 0} (f : Process env.lib → V) {g : Process env.lib → A × Process env.lib}
      → ((p : Process env.lib) → f (g p).1 ≡ f p)
      → Keeps f (λ p. ok (g p))
  changed f h = record { same = λ p e. ap f (sym (ok-inj e).1) ∙ h p }

module _ (env : Env) {V : Type 0} {f : Process env.lib → V} (i : IsOfQueues env f) where
  -- A change of the state by the result of something else.
  updated :
      {A T : Type 0} (r : Result (A × T)) (g : T → Process env.lib) (v : V) {a : A}
      {p : Process env.lib}
      → ((t : T) → f (g t) ≡ v)
      → and_then {B = A × Process env.lib} r (λ (x, t). ok (x, g t)) ≡ ok (a, p)
      → f p ≡ v
  updated (ok (x, t)) g v h e = ap f (sym (ok-inj e).1) ∙ h t
  updated (fault x) g v h e = cc

  pub with_dbs-Keeps : {A : Type 0} (m : Store env.lib A) → Keeps f (with_dbs env m)
  with_dbs-Keeps m = record {
    same = λ p e.
        updated (m p.dbs) (λ dbs. record p { dbs = dbs }) (f p)
          (λ t. i.same (record p { dbs = t }) p refl refl) e;
  }

  pub with_hash-Keeps : {A : Type 0} (m : Hash A) → Keeps f (with_hash env m)
  with_hash-Keeps m = record {
    same = λ p e.
        updated (m p.hash) (λ hash. record p { hash = hash }) (f p)
          (λ t. i.same (record p { hash = t }) p refl refl) e;
  }

  pub io_write_reg-Keeps : Keeps f (io_write_reg env)
  unfolding io_write_reg
  io_write_reg-Keeps = changed env f λ p. i.same _ p refl refl

  pub quit_main_loop-Keeps : Keeps f (quit_main_loop env)
  unfolding quit_main_loop
  quit_main_loop-Keeps = changed env f λ p. i.same _ p refl refl

  send_all :
      (b : Bool) (ios : IosBuf) (p : Process env.lib) {a : Unit {0}} {p' : Process env.lib}
      → (let same : Result (Unit {0} × Process env.lib) = ok (tt, p) in
          if b
          then same
          else (and_then
              (Protocol.io_send_ios ios p.write_buf)
              λ (_, out). ok (tt, record p { write_buf = out; output_watched = true })))
        ≡ ok (a, p')
      → f p' ≡ f p
  send_all true ios p e = ap f (sym (ok-inj e).1)
  send_all false ios p e =
      updated (Protocol.io_send_ios ios p.write_buf)
        (λ out. record p { write_buf = out; output_watched = true }) (f p)
        (λ out. i.same (record p { write_buf = out; output_watched = true }) p refl refl) e

  pub io_send_ios-Keeps : (ios : IosBuf) → Keeps f (io_send_ios env ios)
  unfolding io_send_ios
  io_send_ios-Keeps ios = record { same = λ p e. send_all p.ignore_output ios p e }

  pub send-Keeps : (packet : Stream (Unit {0})) → Keeps f (send env packet)
  unfolding send
  send-Keeps packet = search (>>=-Keeps, lift-Keeps, io_send_ios-Keeps)

  pub io_no_more_input-Keeps : Keeps f (io_no_more_input env)
  unfolding io_no_more_input
  io_no_more_input-Keeps = changed env f λ p. i.same _ p refl refl

  pub io_no_more_output-Keeps : Keeps f (io_no_more_output env)
  unfolding io_no_more_output
  io_no_more_output-Keeps = changed env f λ p. i.same _ p refl refl

  pub some_ios-Keeps : (o : Option IosBuf) → Keeps f (some_ios env o)
  some_ios-Keeps none = record { same = λ p e. cc }
  some_ios-Keeps (some ios) = pure-Keeps ios

  pub send_bye-Keeps : (b : Protocol.ProtoBye) → Keeps f (send_bye env b)
  unfolding send_bye
  send_bye-Keeps b =
      search
        (>>=-Keeps, lift-Keeps, io_no_more_input-Keeps, io_no_more_output-Keeps, io_send_ios-Keeps)

  pub draw-Keeps : Keeps f (draw env)
  unfolding draw
  draw-Keeps = changed env f λ p. i.same _ p refl refl

  pub seal-Keeps : (bytes : List ℕ) → Keeps f (seal env bytes)
  unfolding seal
  seal-Keeps bytes = search (>>=-Keeps, lift-Keeps, draw-Keeps, some_ios-Keeps)
