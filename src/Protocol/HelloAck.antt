-- ===== src/Protocol/HelloAck.antt =====
-- The answer to a hello: `send_hello_ack` against `receive_hello_ack` of version-1/protocol.c.
use cryptar.Prelude.{
  ℕ, ◌+◌, ◌%◌, ◌^◌, ◌≤◌, ◌<◌, ◌≡◌, ◌⊎◌, inl, inr, refl, ap, ◌∙◌, Option, none, some, List, [], ◌∷◌,
  ◌++◌, length, arith, be16, be32, ok, pure, run_next, ◌>>=◌, ne→not_==, if◌then◌else◌, ◌==◌,
}
use cryptar.Ios.{IosBuf, Stream, read, read_str, strndup}
use cryptar.Ios.Valid.{IsValid, contents, advance, length-contents}
use cryptar.Ios.Codec.{Emits, Parses, >>-Emits, advance-IsValid, contents-advance}
use cryptar.Ios.Fields.{
  append_int8-Emits, append_int16-Emits, append_int32-Emits, append_string-Emits, byte-Parses,
  word16-Parses, word32-Parses,
}
use cryptar.Protocol.{ProtoHelloAck, append_message, send_hello_ack, receive_hello_ack}
use cryptar.Protocol.Codec.{expect_command-Parses}

-- On a buffer with exactly `bytes` unread, `m` returns `a`, wherever it leaves the buffer.
record Ends {A : Type 0} (m : Stream A) (bytes : List ℕ) (a : A) : Type 0 where
  run :
      (ios : IosBuf)
      → IsValid ios
      → contents ios ≡ bytes
      → ios.len ≤ 2 ^ 30
      → (r : IosBuf) × (m ios ≡ ok (a, r))

>>=-Ends :
    {A B : Type 0} {m : Stream A} (k : A → Stream B) {bs cs : List ℕ} {a : A} {b : B}
    → Parses m bs a
    → Ends (k a) cs b
    → Ends (m >>= k) (bs ++ cs) b
>>=-Ends {m} k {bs} {cs} {a} {b} p q = record { run = both }
  where
    both :
        (ios : IosBuf)
        → IsValid ios
        → contents ios ≡ bs ++ cs
        → ios.len ≤ 2 ^ 30
        → (r : IosBuf) × ((m >>= k) ios ≡ ok (b, r))
    both ios v e low =
        let (r, run) =
          q.run (advance (length bs) ios) (advance-IsValid bs cs v e) (contents-advance ios bs cs e)
            low in
        (r, ap (λ x. run_next x k) (p.run ios cs v e) ∙ run)

-- A read past the end gives NULL.
read-short :
    (n : ℕ) (ios : IosBuf)
    → IsValid ios
    → length (contents ios) < n
    → n < 2 ^ 31
    → ios.len ≤ 2 ^ 30
    → read n ios ≡ ok (none, ios)
unfolding read
read-short n ios v short small low = ground (arith, length-contents v, v.read_in)

rest_of_str : ℕ → Stream (Option (List ℕ))
rest_of_str n = if n == 0 then pure none else (read n >>= λ p. strndup p n)

rest_of_str-Ends :
    (n : ℕ) (rest : List ℕ)
    → (n ≡ 0) ⊎ (length rest < n)
    → n < 2 ^ 31
    → Ends (rest_of_str n) rest none
unfolding rest_of_str strndup
rest_of_str-Ends n rest c small = record {
  run = λ ios v e low. elim c [
    | inl z ↦ (ios, rw z refl)
    | inr short ↦ (
      ios,
      rw (ne→not_== n 0 (omega arith), read-short n ios v (omega (arith, ap length e)) small low)
          refl,
    )
  ];
}

-- `ios_read_str` of a length beyond the end, or of zero, gives NULL.
read_str-Ends :
    (n : ℕ) (rest : List ℕ)
    → (n ≡ 0) ⊎ (length rest < n)
    → n < 2 ^ 31
    → Ends read_str (be32 n ++ rest) none
unfolding read_str rest_of_str
read_str-Ends n rest c small =
    >>=-Ends rest_of_str (word32-Parses n (omega arith)) (rest_of_str-Ends n rest c small)

-- The fields of an answer to a hello fit their C types.
pub record IsAnswer (ha : ProtoHelloAck) (str : List ℕ) : Type 0 where
  pub version : ha.version < 2 ^ 8
  pub error : ha.error < 2 ^ 16
  pub message : ha.message ≡ some str
  pub short : length str < 2 ^ 28

abbrev answer_bytes : ProtoHelloAck → List ℕ → ℕ → List ℕ
answer_bytes ha str id =
    (1 ∷ [])
    ++ ((ha.version % 256 ∷ []) ++ (be16 ha.error ++ (be32 id ++ (be32 (length str) ++ str))))

send_hello_ack-Emits :
    (ha : ProtoHelloAck) (str : List ℕ) (id : ℕ)
    → ha.message ≡ some str
    → Emits (send_hello_ack ha id) (answer_bytes ha str id)
unfolding send_hello_ack append_message
send_hello_ack-Emits ha str id e = rw e (
    >>-Emits (append_int8-Emits 1) (
      >>-Emits (append_int8-Emits ha.version) (
        >>-Emits (append_int16-Emits ha.error)
          (>>-Emits (append_int32-Emits id) (append_string-Emits str)))))

last-Ends :
    {A B : Type 0} {m : Stream A} {bs : List ℕ} {a : A} (f : A → B)
    → Ends m bs a
    → Ends (m >>= λ x. pure (f x)) bs (f a)
last-Ends {m} {a} f p = record {
  run = λ ios v e low.
      let (r, run) = p.run ios v e low in (r, ap (λ x. run_next x (λ x. pure (f x))) run);
}

-- What `receive_hello_ack` makes of an answer: the text is lost.
abbrev pub without_text : ProtoHelloAck → ProtoHelloAck
without_text ha = record ha { archive_id = none; message = none }

receive_hello_ack-Ends :
    (ha : ProtoHelloAck) (str : List ℕ) (id : ℕ)
    → IsAnswer ha str
    → (id ≡ 0) ⊎ (length str + 4 < id)
    → id < 2 ^ 31
    → Ends receive_hello_ack (answer_bytes ha str id) (without_text ha)
unfolding receive_hello_ack
receive_hello_ack-Ends ha str id w c small = >>=-Ends _ (expect_command-Parses 1 (omega arith)) (
    >>=-Ends _ (byte-Parses ha.version w.version) (
      >>=-Ends _ (word16-Parses ha.error w.error) (
        last-Ends (λ m. record (without_text ha) { message = m })
          (read_str-Ends id (be32 (length str) ++ str) (omega arith) small))))

-- The server writes its archive id between the error and the text of an answer, and the client does
-- not read it but takes it for the length of the text. So the text is lost if the archive id is
-- zero, or greater than the length of the text by more than four and below 2 ^ 31. The fields fit
-- their C types, the text is shorter than 2 ^ 28 bytes, and the buffer has at most 2 ^ 29 bytes and
-- nothing unread.
pub receive_hello_ack-send_hello_ack :
    (ha : ProtoHelloAck) (str : List ℕ) (id : ℕ) {ios : IosBuf}
    → IsAnswer ha str
    → (id ≡ 0) ⊎ (length str + 4 < id)
    → id < 2 ^ 31
    → IsValid ios
    → contents ios ≡ []
    → ios.len ≤ 2 ^ 29
    → (r r' : IosBuf) × (send_hello_ack ha id ios ≡ ok (tt, r))
      × (receive_hello_ack r ≡ ok (without_text ha, r'))
receive_hello_ack-send_hello_ack ha str id {ios} w c small v empty fits =
    let (r, e, a) = (send_hello_ack-Emits ha str id w.message).run v (omega (arith, w.short)) in
    let (r', e') =
      (receive_hello_ack-Ends ha str id w c small).run r a.valid
        (a.added ∙ ap (λ l. l ++ answer_bytes ha str id) empty) (omega (arith, a.grown, w.short)) in
    (r, r', e, e')
