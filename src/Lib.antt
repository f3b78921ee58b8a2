-- ===== src/Lib.antt =====
-- A model of cryptar, an encrypting incremental backup program in C, and theorems about it.
--
-- version-1/ is the program: a client keeps for every archived file a summary and a list of blocks in
-- local databases, compares the file with its old blocks by a rolling weak checksum and by SHA-1,
-- covers the changed parts with new blocks, and compresses, encrypts and sends them in packets to a
-- server, which stores them by number. Everything that is stored or sent goes through growing byte
-- buffers. src/ rewrites it in C++: blocks that hold their contents compressed and encrypted under a
-- random id, transports that keep them in files, a communicator that transfers them on a thread of its own,
-- and a configuration and a root block that say where they are. It is unfinished and shares no code.
--
-- The files, with the code that they model:
--   Prelude             lists and Boolean tests over the native numbers, big-endian words, and the monad
--                       of a C function: it returns with a new state or stops with a fault
--   Ios                 version-1/ios.c: `IOSBuf`, `ios_append`, `ios_read`, `ios_read_int32`, ...; Ios/Valid
--                       is the invariant, Ios/Codec the notions of a serialiser and a parser with the
--                       rules that compose them, Ios/Fields the single fields, Ios/Buffers whole buffers
--   Hash                version-1/hash.c: `hash_create`, `hash_insert`, `hash_find`, `hash_destroy`
--   Checksum            version-1/checksum.c: `WCsum_get`, `WCsum_update`, and in Checksum/Window the table of
--                       a file, `WCsum_make_hash`
--   Block, Summary, Filename, Remote
--                       version-1/block.c, summary.c, filename.c and remote.c: the records, their byte form
--                       (`*_to_stream`, `*_from_stream`) and their database operations (Store)
--   Covering            version-1/covering.c: `cover_complete_cover`, `cover_hash`, and in Covering/Update
--                       `cover_update_remote`, `cover_fill_block` and `cover_save_local`
--   Requests            version-1/requests.c: the byte form of a block list, and in Requests/Sending
--                       `request_block_list` and `send_block_list`
--   Database            version-1/db_misc.c: `db_put`, `db_get`, `db_delete`, `db_get_next_index`;
--                       Database/Opening has `db_open` and `db_close`, Database/Cursors `db_curs_next`
--   Constants           version-1/constants.c
--   Encryption          version-1/encryption.c: `encrypt` and `decrypt`
--   Compress            version-1/compress.c: `do_compress` and `do_decompress`
--   Protocol            version-1/protocol.c and `io_send_ios` of version-1/io.c: the packets and the frame;
--                       Protocol/Server and Protocol/Client are the handlers `accept_*` of the two sides, and
--                       Protocol/Dispatch is `read_and_dispatch_commands`
--   Process             the state of a process, with the buffers and flags of version-1/io.c; Loop has the two
--                       handlers `io_output_handler` and `io_input_handler`
--   Tickets             version-1/workticket.c: Tickets/Registry is the work list, Tickets/Work is
--                       `wt_process_queue` with `wt_send_blocks` and `wt_send_block_requests`
--   Archive, Extract    version-1/archive.c and extract.c: `do_archive` and `do_extract`
--   Key                 version-1/key.c: `db_key_add` and `db_key_fetch`
--   Options             version-1/option.c and options.c: `parse_options`
--   Preferences         version-1/prefs.c: `pref_get_value` and its kin, and `do_create`
--   Main                version-1/main.c and daemon.c: what `main` starts, `start_remote_and_run`,
--                       `do_server_init` and `do_daemon`
--   Listing             version-1/list.c: `do_list`, over the cursor of Database/Cursors
--   Inspector           version-1/cryptar-db.c: `find_by_id` and `display_all`
--   Rewrite             src/: one child for each of crypt.cpp, compress.cpp, block.cpp, transport.cpp,
--                       communicate.cpp, mode.cpp, config.cpp and root.cpp; Rewrite/System has the random
--                       pool and the files, Rewrite/Communicator/Threads the two threads as a step relation
--   Tests               concrete inputs
--
-- A structure is a record, a pointer that may be NULL an option, memory a list of bytes. Functions that
-- change static or shared state are state transformers over that state: a buffer, the hash table, or the
-- open databases. A failed assertion, an access outside of what was written, a NULL pointer and `exit`
-- are faults. A plain `char` has a sign, and MAINTAINER_MODE is defined as in version-1/Makefile, but for
-- the bookkeeping of buffers that it adds to ios.c. `guint32` and `guint16` arithmetic wraps explicitly.
--
-- Libraries are parameters: Berkeley DB with the law that a stored record is looked up again, the
-- cipher, SHA-1, zlib and the sort of glib; for src/ Crypto++, bzip2 and the text archive of boost, with
-- the laws that what they make is read back, and that bzip2 reports an output that has no room.
--
-- Loops over lists are structural. The two loops of `cover_complete_cover` run on fuel: a block offset
-- for the gaps and the file length for the tail, each an upper bound if the block length is positive,
-- since every turn then adds at least one byte. The loop of `WCsum_make_hash_sub` has one more than the
-- length of the file, and passes four bytes in every turn. The theorems about appending are about
-- buffers of at most 2 ^ 30 bytes.
--
-- A client and a server are each a `Process`: a handler takes the state of the process and gives it back,
-- and what the event loop of glib lets happen between two calls is an argument, or the order in which a
-- theorem applies the handlers. The loop of `read_and_dispatch_commands` has fuel: a packet has at least
-- five bytes with its length, so the size of the read buffer is enough. The wait for room in the work list
-- has fuel too, since it ends only when the peer answers. `decompress` of src/ follows 33 calls that double
-- the room, enough for a text of 2 ^ 29 bytes. In src/ an exception is a fault, the arrays on its stack have no
-- limit, the two threads of a communicator read its fields as if they were atomic and their transfers do
-- not throw, a block is shared by a number that stands for its pointer, and a completion token is of a type of the client's, with its call as an
-- argument.
--
-- Not modelled: `accept_hello` and `accept_hello_ack` of version-1/protocol.c, which do not compile and are
-- arguments of the dispatch; signals, child processes and printing; the queue of
-- version-1/queue.c, which nothing calls; the code taken from rsync (version-1/fileio.c, syscall.c, util.c). Of src/: db.cpp and
-- filesystem.cpp, whose functions are empty or not compiled, the tokens that act.h only declares, and the
-- options of main.cpp, which nothing uses.
pub mod Prelude
pub mod Ios
pub mod Hash
pub mod Checksum
pub mod Block
pub mod Covering
pub mod Database
pub mod Remote
pub mod Requests
pub mod Encryption
pub mod Compress
pub mod Summary
pub mod Filename
pub mod Constants
pub mod Protocol
pub mod Tickets
pub mod Process
pub mod Archive
pub mod Extract
pub mod Loop
pub mod Key
pub mod Options
pub mod Preferences
pub mod Main
pub mod Listing
pub mod Inspector
pub mod Rewrite
pub mod Tests
