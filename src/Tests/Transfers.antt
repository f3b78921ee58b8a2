-- ===== src/Tests/Transfers.antt =====
-- Blocks, configurations and transfers of src/ with small libraries.
use cryptar.Prelude.{
  ℕ, ◌+◌, ◌%◌, ◌<◌, ◌≤◌, ◌≡◌, refl, true, false, none, some, List, [], ◌∷◌, ◌++◌, length, take, ok,
  fault, assertion_failed, arith, State, ◌^◌, same_bytes,
}
use cryptar.Rewrite.System.{System, write_file}
use cryptar.Rewrite.Crypt.{CryptoLib, fit, hash_rounds, phrase_to_key, init_key, encrypt}
use cryptar.Rewrite.Crypt.Phrases.{phrase_to_key-prefix}
use cryptar.Rewrite.Crypt.Names.{Avoids, IsFileName}
use cryptar.Rewrite.Compress.{compress, decompress, rounds}
use cryptar.Rewrite.Compress.RoundTrip.{decompress-compress}
use cryptar.Rewrite.Block.{
  none_transport, fs_transport, Block, block_by_content, block_by_id, complete, call_all,
  plain_text, to_stream, block_status_invalid,
}
use cryptar.Rewrite.Block.RoundTrip.{salted}
use cryptar.Rewrite.Transport.{
  transport_fs, ends_in_slash, block_read, block_write, transport_write,
}
use cryptar.Rewrite.Transport.Fetching.{plain_text-block_read, made}
use cryptar.Rewrite.Transport.Paths.{IsDirectory, transport_write-IsFileName}
use cryptar.Rewrite.Communicator.{
  Communicator, World, Objects, set_block, complete_at, complete_all, batches,
}
use cryptar.Rewrite.Communicator.Batches.{batches-transferred, transferred}
use cryptar.Rewrite.Config.{
  Config, ConfigParam, fs, transport_of, make_transport, save_as, load_config,
}
use cryptar.Rewrite.Config.RoundTrip.{load_config-save_as}
use cryptar.Rewrite.Root.{Stores, before, find, add_store, get_store, remove_store}
use cryptar.Rewrite.Root.Laws.{IsSorted, get_store-add_store}
use cryptar.Tests.Libraries.{crypto, bzip, disk, no_files, text_archive, repeat, shifted}

-- "secret", and a base path.
abbrev password : List ℕ
password = 115 ∷ 101 ∷ 99 ∷ 114 ∷ 101 ∷ 116 ∷ []

abbrev base : List ℕ
base = 47 ∷ 116 ∷ 47 ∷ []

abbrev contents : List ℕ
contents = 72 ∷ 105 ∷ []

decompress-compress_example : decompress bzip rounds (66 ∷ contents) 0 ≡ ok contents
unfolding compress
decompress-compress_example = decompress-compress bzip contents (66 ∷ contents) (omega arith) refl

-- A passphrase of sixteen bytes.
abbrev phrase : List ℕ
phrase = repeat 16 97

phrase_to_key-prefix_example :
    (init_key crypto (phrase_to_key crypto phrase) ≡ take 16 phrase)
    × (length (phrase_to_key crypto phrase) ≡ length phrase + 1600)
phrase_to_key-prefix_example = phrase_to_key-prefix crypto phrase (omega arith)

abbrev packed : List ℕ
packed = 66 ∷ salted crypto contents 2

abbrev sealed : List ℕ
sealed = shifted 115 packed

compress-salted : compress bzip (salted crypto contents 2) ≡ ok packed
unfolding compress
compress-salted = refl

encrypt-packed : encrypt crypto packed password ≡ ok sealed
unfolding encrypt init_key fit
encrypt-packed = refl

plain_text-block_read_example :
    (b : Block ℕ) × (s1 : System) × (s2 : System) × (b' : Block ℕ) × (block_by_content crypto bzip
        (fs_transport base)
        password
        contents
        no_files
      ≡ ok (b, s1))
    × (block_write crypto disk b s1 ≡ ok (tt, s2))
    × (block_read crypto disk (block_by_id crypto bzip (fs_transport base) password b.id) s2
        ≡ ok (b', s2))
    × (plain_text crypto bzip b' ≡ ok contents)
    × (b'.status ≡ block_status_invalid)
plain_text-block_read_example =
    plain_text-block_read crypto bzip disk base password contents no_files packed sealed
      (omega arith) compress-salted encrypt-packed refl

abbrev a_block : Block ℕ
a_block = made crypto base password 0 sealed

-- An encoding by letters, with a line feed at the end.
abbrev letters : List ℕ → List ℕ
letters [] = 10 ∷ []
letters (b ∷ bytes) = (b % 26 + 97) ∷ letters bytes

letters-no_dot : (bytes : List ℕ) → Avoids 46 (letters bytes)
letters-no_dot [] = (omega arith, tt)
letters-no_dot (b ∷ bytes) = (omega arith, letters-no_dot bytes)

letters-longer : (bytes : List ℕ) → 0 < length bytes → 1 < length (letters bytes)
letters-longer [] h = omega arith
letters-longer (b ∷ []) h = omega arith
letters-longer (b ∷ c ∷ bytes) h = omega (arith, letters-longer (c ∷ bytes) (omega arith))

abbrev lettered : CryptoLib
lettered = record crypto { base64 = letters }

transport_write-IsFileName_example :
    (name : List ℕ) × IsDirectory base
    × IsFileName name
    × (transport_write lettered disk (fs_transport base) a_block no_files
        ≡ write_file disk (base ++ name) (to_stream a_block) no_files)
unfolding transport_fs ends_in_slash
transport_write-IsFileName_example =
    transport_write-IsFileName lettered disk base (fs_transport base) a_block no_files
      (record { no_dot = letters-no_dot; longer = letters-longer }) refl

-- A token adds its number to a list.
abbrev noted : ℕ → State (List ℕ) (Unit {0})
noted act log = ok (tt, log ++ act ∷ [])

-- A batch is of one block.
abbrev two_blocks : Communicator
two_blocks = record {
  batch_size = 1;
  transport = fs_transport base;
  needed = true;
  queue = 4 ∷ 2 ∷ [];
}

abbrev with_acts : List ℕ → Block ℕ
with_acts acts = record a_block { act_queue = acts }

abbrev a_world : World ℕ (List ℕ)
a_world = record {
  system = no_files;
  objects = record { blocks = λ p. with_acts (p ∷ (p + 10) ∷ []); client = [] };
}

abbrev completed : Objects ℕ (List ℕ)
completed = record (set_block 2 (with_acts []) (set_block 4 (with_acts []) a_world.objects)) {
  client = 4 ∷ 14 ∷ 2 ∷ 12 ∷ [];
}

complete_all-two_blocks : complete_all noted two_blocks.queue a_world.objects ≡ ok (tt, completed)
unfolding complete_all complete_at complete call_all
complete_all-two_blocks = refl

batches-transferred_example :
    batches crypto disk noted 2 two_blocks a_world
    ≡ ok (
      record two_blocks { queue = [] },
      transferred crypto disk (fs_transport base) (4 ∷ 2 ∷ []) a_world completed,
    )
batches-transferred_example =
    batches-transferred crypto disk noted (λ path. refl) 2 two_blocks a_world completed
      (omega arith) complete_all-two_blocks

abbrev saved_config : Config
saved_config = record {
  transport = some (fs_transport base);
  root_id = 9 ∷ 8 ∷ [];
  root_crypto_key = 5 ∷ [];
  config_name = [];
  crypto_key = [];
}

abbrev archived : List ℕ
archived = text_archive.to_text (9 ∷ 8 ∷ []) (phrase_to_key crypto (97 ∷ []))

compress-archived : compress bzip archived ≡ ok (66 ∷ archived)
unfolding compress phrase_to_key hash_rounds
compress-archived = refl

encrypt-archived :
    encrypt crypto (66 ∷ archived) (phrase_to_key crypto (97 ∷ []))
    ≡ ok (shifted 97 (66 ∷ archived))
unfolding encrypt init_key fit phrase_to_key hash_rounds
encrypt-archived = refl

length-archived : length archived ≤ 2 ^ 29
unfolding phrase_to_key hash_rounds
length-archived = omega arith

load_config-save_as_example :
    (c' : Config) × (s' : System) × (l : Config) × (s'' : System) × (save_as crypto bzip disk
        text_archive
        (99 ∷ [])
        (97 ∷ [])
        saved_config
        no_files
      ≡ ok (c', s'))
    × (load_config crypto bzip disk text_archive (99 ∷ []) (97 ∷ []) s' ≡ ok (l, s''))
    × (l ≡ record c' { transport = none; root_crypto_key = [] })
    × (l.root_id ≡ saved_config.root_id)
load_config-save_as_example =
    load_config-save_as crypto bzip disk text_archive 99 97 [] [] (66 ∷ archived)
      (shifted 97 (66 ∷ archived)) saved_config no_files length-archived compress-archived
      encrypt-archived refl

abbrev fs_param : ConfigParam
fs_param = record { passphrase = []; local_dir = base; transport_type = fs; transport = none }

abbrev fs_made : ConfigParam
fs_made = record fs_param { transport = some (fs_transport base) }

transport_of-fs_param : transport_of disk fs_param ≡ ok (fs_transport base, fs_made)
unfolding transport_of make_transport transport_fs ends_in_slash
transport_of-fs_param = refl

abbrev two_stores : Stores
two_stores = (97 ∷ [], none_transport) ∷ (99 ∷ [], none_transport) ∷ []

find-two_stores : find (98 ∷ []) two_stores ≡ none
unfolding find
find-two_stores = refl

two_stores-IsSorted : IsSorted two_stores
unfolding before
two_stores-IsSorted = (refl, (tt, tt))

get_store-add_store_example :
    (s' : Stores) × (add_store disk (98 ∷ []) fs_param two_stores
      ≡ ok (fs_transport base, s', fs_made))
    × (get_store (98 ∷ []) s' ≡ ok (fs_transport base))
    × ((m : List ℕ) → same_bytes (98 ∷ []) m ≡ false → get_store m s' ≡ get_store m two_stores)
    × IsSorted s'
    × (add_store disk (98 ∷ []) fs_made s' ≡ fault assertion_failed)
    × (remove_store (98 ∷ []) s' ≡ ok two_stores)
get_store-add_store_example =
    get_store-add_store disk (98 ∷ []) fs_param fs_made two_stores (fs_transport base)
      find-two_stores transport_of-fs_param two_stores-IsSorted
