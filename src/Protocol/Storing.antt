-- ===== src/Protocol/Storing.antt =====
-- `accept_put_block` and `accept_get_block` of version-1/protocol.c together: the server as a store.
use cryptar.Prelude.{ℕ, ◌+◌, ◌%◌, ◌^◌, ◌<◌, ◌≡◌, refl, some, take, arith, be32, ne→not_==}
use cryptar.Ios.{IosBuf}
use cryptar.Ios.Buffers.{Holds}
use cryptar.Database.{archive, index_of, Handles}
use cryptar.Database.Laws.{Counter, counters}
use cryptar.Remote.Codec.{archive_bytes, archive_of}
use cryptar.Remote.RoundTrip.{IsStorable, remote_fetch-add}
use cryptar.Protocol
use cryptar.Protocol.{ProtoIds, ProtoData}
use cryptar.Protocol.Server.{accept_put_block, accept_get_block, send_get_ack, answer}
use cryptar.Process
use cryptar.Process.{Env, Process}

module _ (env : Env) where
  -- If the counter of archives is below its limit, both writes succeed, and the data of the block has at
  -- most 2 ^ 30 - 3 bytes and a length that is not zero modulo 2 ^ 16, then `accept_put_block` stores it and
  -- sends an acknowledgement with the next index of the counter. In any later state with these
  -- databases, `accept_get_block` for that index sends as many bytes from the front of the data as its
  -- length modulo 2 ^ 16, with the ids of the request.
  pub accept_get_block-accept_put_block :
      (pb : ProtoData) (n : ℕ) (p q : Process env.lib) (file_id block_id : ℕ)
      (cdb cdb' db db' : env.lib.Db)
      → IsStorable pb.ios
      → 0 < pb.ios.len % 2 ^ 16
      → n + 1 < 2 ^ 32
      → p.dbs (counters env.server) ≡ some cdb
      → Counter env.lib cdb archive n
      → env.lib.store cdb (be32 (index_of archive)) (be32 (n + 1)) ≡ some cdb'
      → p.dbs archive ≡ some db
      → env.lib.store db (be32 (n + 1)) (archive_bytes (archive_of (n + 1) 0 pb.ios)) ≡ some db'
      → (h' : Handles env.lib) × (content : IosBuf) × (accept_put_block env pb p
          ≡ Process.send env
              (Protocol.send_put_ack
                (record { file_id = pb.file_id; block_id = pb.block_id; archive_id = n + 1 }))
              (record p { dbs = h' }))
        × (accept_get_block env
              (record { file_id = file_id; block_id = block_id; archive_id = n + 1 })
              (record q { dbs = h' })
            ≡ send_get_ack env
                (record { file_id = file_id; block_id = block_id; archive_id = n + 1 })
                content
                (record q { dbs = h' }))
        × Holds (take (pb.ios.len % 2 ^ 16) pb.ios.buf) content
  unfolding accept_put_block accept_get_block answer
  accept_get_block-accept_put_block pb n p q file_id block_id cdb cdb' db db' s pos small e c
        counted e' stored =
      let (h', content, added, fetched, holds) =
        remote_fetch-add env.lib env.server pb.ios n p.dbs cdb cdb' db db' s pos small e c counted
          e' stored in
      (h', content, rw added refl, rw (ne→not_== (n + 1) 0 (omega arith), fetched) refl, holds)
