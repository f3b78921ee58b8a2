-- ===== src/Protocol/Codec.antt =====
-- The messages of version-1/protocol.c: `send_*` against `receive_*`.
use cryptar.Prelude.{
  ℕ, ◌%◌, ◌^◌, ◌≤◌, ◌<◌, ◌≡◌, ◌≢◌, sym, ap, ◌∙◌, some, List, [], ◌∷◌, ◌++◌, length, arith, be32, ok,
  run_next, ne→not_==, assert, ◌==◌,
}
use cryptar.Ios.{IosBuf}
use cryptar.Ios.Valid.{IsValid, contents, advance}
use cryptar.Ios.Codec.{Emits, Parses, >>-Emits, >>=-Parses, last-Parses, round_trip}
use cryptar.Ios.Fields.{
  append_int8-Emits, append_int32-Emits, append_string-Emits, byte-Parses, word32-Parses, NoNul,
  read_str-Parses,
}
use cryptar.Protocol.{
  ProtoHello, ProtoIds, append_message, send_hello, send_put_ack, send_get_block, expect_command,
  receive_hello, receive_put_ack, receive_get_block, send_ids, receive_ids,
}

pub expect_command-Parses : (cmd : ℕ) → cmd < 7 → Parses (expect_command cmd) (cmd % 256 ∷ []) tt
unfolding expect_command
expect_command-Parses cmd h = record {
  run = λ ios rest v e.
      ap (λ x. run_next x (λ c. assert (c == cmd)))
        ((byte-Parses cmd (omega arith)).run ios rest v e)
      ∙ ground arith;
}

-- The fields of a hello fit their C types, and its text is not empty.
pub record IsHello (h : ProtoHello) (str : List ℕ) : Type 0 where
  pub version : h.version < 2 ^ 8
  pub archive_id : h.archive_id < 2 ^ 32
  pub archive_pass : h.archive_pass < 2 ^ 32
  pub create_archive : h.create_archive < 2 ^ 8
  pub message : h.message ≡ some str
  pub terminated : NoNul str
  pub some_text : 0 < length str
  pub short : length str < 2 ^ 28

abbrev hello_bytes : ProtoHello → List ℕ → List ℕ
hello_bytes h str =
    (0 ∷ [])
    ++ ((h.version % 256 ∷ [])
        ++ (be32 h.archive_id
            ++ (be32 h.archive_pass
                ++ ((h.create_archive % 256 ∷ []) ++ (be32 (length str) ++ str)))))

append_message-Emits : (str : List ℕ) → Emits (append_message (some str)) (be32 (length str) ++ str)
unfolding append_message
append_message-Emits str = append_string-Emits str

send_hello-Emits :
    (h : ProtoHello) (str : List ℕ)
    → h.message ≡ some str
    → Emits (send_hello h) (hello_bytes h str)
unfolding send_hello
send_hello-Emits h str e = rw e (
    >>-Emits (append_int8-Emits 0) (
      >>-Emits (append_int8-Emits h.version) (
        >>-Emits (append_int32-Emits h.archive_id) (
          >>-Emits (append_int32-Emits h.archive_pass)
            (>>-Emits (append_int8-Emits h.create_archive) (append_message-Emits str))))))

receive_hello-Parses :
    (h : ProtoHello) (str : List ℕ)
    → IsHello h str
    → Parses receive_hello (hello_bytes h str) (record h { message = some str })
unfolding receive_hello
receive_hello-Parses h str w = >>=-Parses _ (expect_command-Parses 0 (omega arith)) (
    >>=-Parses _ (byte-Parses h.version w.version) (
      >>=-Parses _ (word32-Parses h.archive_id w.archive_id) (
        >>=-Parses _ (word32-Parses h.archive_pass w.archive_pass) (
          >>=-Parses _ (byte-Parses h.create_archive w.create_archive) (
            last-Parses (λ m. record h { message = m })
              (read_str-Parses str w.terminated w.some_text (omega (arith, w.short))))))))

-- A hello whose fields fit their C types and whose text is not empty, has no zero byte and is
-- shorter than 2 ^ 28 bytes, written to a buffer of at most 2 ^ 29 bytes with nothing unread, is
-- read by `receive_hello` as it was sent.
pub receive_hello-send_hello :
    (h : ProtoHello) (str : List ℕ) {ios : IosBuf}
    → IsHello h str
    → IsValid ios
    → contents ios ≡ []
    → ios.len ≤ 2 ^ 29
    → (r r' : IosBuf) × (send_hello h ios ≡ ok (tt, r)) × (receive_hello r ≡ ok (h, r'))
receive_hello-send_hello h str {ios} w v empty fits =
    let (r, e, f) =
      round_trip (send_hello-Emits h str w.message) (receive_hello-Parses h str w) v empty
        (omega (arith, w.short)) in
    let after : IosBuf = advance (length (hello_bytes h str)) r in
    (r, after, e, f ∙ ap (λ m. ok (record h { message = m }, after)) (sym w.message))

pub record AreIds (m : ProtoIds) : Type 0 where
  pub file_id : m.file_id < 2 ^ 32
  pub block_id : m.block_id < 2 ^ 32
  pub archive_id : m.archive_id < 2 ^ 32

abbrev ids_bytes : ProtoIds → List ℕ
ids_bytes m = be32 m.file_id ++ (be32 m.block_id ++ be32 m.archive_id)

ids-Parses : (m : ProtoIds) → AreIds m → Parses receive_ids (ids_bytes m) m
unfolding receive_ids
ids-Parses m w = >>=-Parses _ (word32-Parses m.file_id w.file_id) (
    >>=-Parses _ (word32-Parses m.block_id w.block_id)
      (last-Parses (λ n. record m { archive_id = n }) (word32-Parses m.archive_id w.archive_id)))

ids-Emits : (cmd : ℕ) (m : ProtoIds) → Emits (send_ids cmd m) ((cmd % 256 ∷ []) ++ ids_bytes m)
unfolding send_ids
ids-Emits cmd m = >>-Emits (append_int8-Emits cmd) (
    >>-Emits (append_int32-Emits m.file_id)
      (>>-Emits (append_int32-Emits m.block_id) (append_int32-Emits m.archive_id)))

-- An acknowledgement of a stored block whose ids fit their C types, written to a buffer of at most 2
-- ^ 29 bytes with nothing unread, is read as it was sent, and so is a request for a block with a
-- file id and an archive id other than zero.
pub receive_ids-send_ids :
    (m : ProtoIds) {ios : IosBuf}
    → AreIds m
    → IsValid ios
    → contents ios ≡ []
    → ios.len ≤ 2 ^ 29
    → (((r r' : IosBuf) × (send_put_ack m ios ≡ ok (tt, r)) × (receive_put_ack r ≡ ok (m, r'))))
      × ((m.file_id ≢ 0)
          → m.archive_id ≢ 0
          → (r r' : IosBuf) × (send_get_block m ios ≡ ok (tt, r))
            × (receive_get_block r ≡ ok (m, r')))
unfolding send_put_ack receive_put_ack send_get_block receive_get_block
receive_ids-send_ids m {ios} w v empty fits =
    let (r, e, f) =
      round_trip (ids-Emits 4 m)
        (>>=-Parses (λ _. receive_ids) (byte-Parses 4 (omega arith)) (ids-Parses m w)) v empty
        (omega arith) in
    let (s, e', f') =
      round_trip (ids-Emits 5 m)
        (>>=-Parses (λ _. receive_ids) (expect_command-Parses 5 (omega arith)) (ids-Parses m w)) v
        empty (omega arith) in
    (
      (r, advance 13 r, e, f),
      λ nf na. (s, advance 13 s, rw (ne→not_== m.file_id 0 nf, ne→not_== m.archive_id 0 na) e', f'),
    )
