-- ===== src/Rewrite/Config/RoundTrip.antt =====
-- `Config::save` of src/config.cpp, and the configuration that is loaded from its file.
use cryptar.Prelude.{
  ℕ, ◌+◌, ◌^◌, ◌≤◌, ◌≡◌, refl, ap, true, false, none, List, [], ◌∷◌, length, ok, same_bytes_self,
}
use cryptar.Rewrite.System.{System, Os, with_file, write_file}
use cryptar.Rewrite.Crypt.{CryptoLib, phrase_to_key, encrypt, pseudo_random_string}
use cryptar.Rewrite.Crypt.RoundTrip.{decrypt-encrypt}
use cryptar.Rewrite.Crypt.Phrases.{phrase_to_key-append}
use cryptar.Rewrite.Compress.{BzLib, compress}
use cryptar.Rewrite.Compress.RoundTrip.{decompress-compress}
use cryptar.Rewrite.Config.{Config, Archive, is_empty, save, save_as, restore, load_config}

module _ (lib : CryptoLib) (bz : BzLib) (os : Os) (archive : Archive) where
  phrase_to_key_some : (p : ℕ) (phrase : List ℕ) → is_empty (phrase_to_key lib (p ∷ phrase)) ≡ false
  phrase_to_key_some p phrase =
      let (more, e, size) = phrase_to_key-append lib (p ∷ phrase) in ap is_empty e

  restore-to_text :
      (root_id key : List ℕ) (c : Config)
      → restore lib bz os archive (archive.to_text root_id key) c
        ≡ ok (record c { root_id = root_id; crypto_key = key })
  unfolding restore
  restore-to_text root_id key c = rw (restore, archive.of_text-to_text root_id key) refl

  -- A configuration that is saved under a name and a passphrase is loaded with them: its root's id comes
  -- back, but the key of its root is empty and its transport is not there. The archive is of at most
  -- 2 ^ 29 bytes, both libraries do their work and the file can be written.
  pub load_config-save_as :
      (n p : ℕ) (name phrase packed sealed : List ℕ) (c : Config) (s : System)
      → length (archive.to_text c.root_id (phrase_to_key lib (p ∷ phrase))) ≤ 2 ^ 29
      → compress bz (archive.to_text c.root_id (phrase_to_key lib (p ∷ phrase))) ≡ ok packed
      → encrypt lib packed (phrase_to_key lib (p ∷ phrase)) ≡ ok sealed
      → os.writable (n ∷ name) ≡ true
      → (c' : Config) × (s' : System) × (l : Config) × (s'' : System) × (save_as lib bz os archive
            (n ∷ name)
            (p ∷ phrase)
            c
            s
          ≡ ok (c', s'))
        × (load_config lib bz os archive (n ∷ name) (p ∷ phrase) s' ≡ ok (l, s''))
        × (l ≡ record c' { transport = none; root_crypto_key = [] })
        × (l.root_id ≡ c.root_id)
  unfolding save_as save load_config write_file pseudo_random_string
  load_config-save_as n p name phrase packed sealed c s small pe se writable =
      let key = phrase_to_key lib (p ∷ phrase) in
      let c' : Config = record c { config_name = n ∷ name; crypto_key = key } in
      let s' : System = with_file (n ∷ name) sealed s in
      (
        c',
        s',
        record c' { transport = none; root_crypto_key = [] },
        record s' { draws = s.draws + 1 },
        rw (phrase_to_key_some p phrase, pe, se, writable) refl,
        rw
            (
              same_bytes_self (n ∷ name),
              decrypt-encrypt lib key packed sealed se,
              decompress-compress bz (archive.to_text c.root_id key) packed small pe,
              restore-to_text c.root_id key,
            )
            refl,
        refl,
        refl,
      )
