-- ===== src/Rewrite/Config.antt =====
-- src/config.h and src/config.cpp: the configuration that finds the root block, and its file.
--
-- The text archive of boost is a parameter, for the two fields that `serialize` names. A file that cannot
-- be opened for reading is left out: what is read of it is not defined.

pub mod RoundTrip
use cryptar.Prelude.{
  ℕ, Bool, true, false, Option, none, some, List, [], ◌∷◌, ◌||◌, if◌then◌else◌, Result, ok, fault,
  thrown, runtime_error, assertion_failed, out_of_bounds, archive_exception, and_then, State, pure,
  get, put, stop, lift, assert, ◌>>=◌, ◌>>◌, ◌≡◌,
}
use cryptar.Rewrite.System.{System, Os, write_file}
use cryptar.Rewrite.Crypt.{CryptoLib, phrase_to_key, encrypt, decrypt, pseudo_random_string}
use cryptar.Rewrite.Compress.{BzLib, compress, decompress, rounds}
use cryptar.Rewrite.Block.{Transport, none_transport}
use cryptar.Rewrite.Transport.{transport_fs}

pub data TransportType : Type 0 where
  invalid_transport base_transport no_transport fs : TransportType

pub record ConfigParam : Type 0 where
  pub passphrase : List ℕ
  pub local_dir : List ℕ
  pub transport_type : TransportType
  -- The transport once it is made.
  pub transport : Option Transport

pub record Config : Type 0 where
  pub transport : Option Transport
  pub root_id : List ℕ
  pub root_crypto_key : List ℕ
  pub config_name : List ℕ
  pub crypto_key : List ℕ

-- What is in the archive.
pub record Archive : Type 0 where
  pub to_text : (root_id crypto_key : List ℕ) → List ℕ
  pub of_text : List ℕ → Option (List ℕ × List ℕ)
  pub of_text-to_text :
      (root_id crypto_key : List ℕ)
      → of_text (to_text root_id crypto_key) ≡ some (root_id, crypto_key)

abbrev pub is_empty : List ℕ → Bool
is_empty [] = true
is_empty (b ∷ bytes) = false

-- `ConfigParam::make_transport`.
unfoldable pub make_transport : Os → ConfigParam → Result Transport
make_transport os param = elim param.transport_type [
  | invalid_transport ↦ fault (thrown runtime_error)
  | base_transport ↦ fault (thrown runtime_error)
  | no_transport ↦ ok none_transport
  | fs ↦ transport_fs os param.local_dir
]

-- `ConfigParam::transport`, with the parameters afterwards.
unfoldable pub transport_of : Os → ConfigParam → Result (Transport × ConfigParam)
transport_of os param = elim param.transport [
  | some t ↦ ok (t, param)
  | none ↦ and_then (make_transport os param) λ t. ok (t, record param { transport = some t })
]

module _ (lib : CryptoLib) (bz : BzLib) (os : Os) where
  -- A new configuration: its root has an id of its own, and its keys are empty but for a passphrase.
  unfoldable pub make_config : ConfigParam → State System (Config × ConfigParam)
  make_config param = do
    root_id ← pseudo_random_string lib 40
    let key = if is_empty param.passphrase then [] else phrase_to_key lib param.passphrase
    (t, param') ← lift (transport_of os param)
    pure (
      record {
        transport = some t;
        root_id = root_id;
        root_crypto_key = [];
        config_name = [];
        crypto_key = key;
      },
      param',
    )

module _ (lib : CryptoLib) (bz : BzLib) (os : Os) (archive : Archive) where
  -- `save()`.
  unfoldable pub save : Config → State System (Unit {0})
  save c = if is_empty c.config_name || is_empty c.crypto_key then stop assertion_failed else do
    let big_text = archive.to_text c.root_id c.crypto_key
    plain_text ← lift (compress bz big_text)
    cipher_text ← lift (encrypt lib plain_text c.crypto_key)
    write_file os c.config_name cipher_text

  -- `save(in_name, in_passphrase)`.
  unfoldable pub save_as : (in_name in_passphrase : List ℕ) → Config → State System Config
  save_as in_name in_passphrase c =
      if is_empty in_name || is_empty in_passphrase then stop assertion_failed else do
        let c' : Config = record c {
          config_name = in_name;
          crypto_key = phrase_to_key lib in_passphrase;
        }
        save c'
        pure c'

  -- The archive is read into the configuration; an archive that cannot be read throws.
  unfoldable pub restore : List ℕ → Config → Result Config
  restore big_text c = elim (archive.of_text big_text) [
    | none ↦ fault (thrown archive_exception)
    | some (root_id, crypto_key) ↦ ok (record c { root_id = root_id; crypto_key = crypto_key })
  ]

  -- The configuration of a file. Without a name it is left empty.
  unfoldable pub load_config : (in_config_name in_passphrase : List ℕ) → State System Config
  load_config in_config_name in_passphrase = do
    root_id ← pseudo_random_string lib 40
    let c : Config = record {
      transport = none;
      root_id = root_id;
      root_crypto_key = [];
      config_name = in_config_name;
      crypto_key = phrase_to_key lib in_passphrase;
    }
    if is_empty in_config_name then pure (record c { crypto_key = [] }) else do
      s ← get
      cipher_text ←
          lift
            (elim (s.files in_config_name) [ none ↦ fault out_of_bounds | some bytes ↦ ok bytes ])
      plain_text ← lift (decrypt lib cipher_text c.crypto_key)
      big_text ← lift (decompress bz rounds plain_text 0)
      c' ← lift (restore big_text c)
      pure c'
