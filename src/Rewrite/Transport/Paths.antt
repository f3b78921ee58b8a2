-- ===== src/Rewrite/Transport/Paths.antt =====
-- The files of a TransportFS of src/transport.cpp.
use cryptar.Prelude.{
  ℕ, ◌≡◌, refl, sym, ap, ◌∙◌, ◌⊎◌, inl, inr, true, false, Bool, List, [], ◌∷◌, ◌++◌, ok, fault,
  thrown, thrown_text, assertion_failed, if◌then◌else◌, ==_iff,
}
use cryptar.Rewrite.Crypt.{CryptoLib, message_digest}
use cryptar.Rewrite.Crypt.Names.{IsFileName, IsBase64, message_digest-IsFileName}
use cryptar.Rewrite.System.{System, Os, write_file}
use cryptar.Rewrite.Block.{Transport, fs_transport, Block, to_stream}
use cryptar.Rewrite.Transport.{block_to_filename, transport_fs, transport_write, ends_in_slash}

-- A path to what stands in a directory: the working directory, or one that is written with a slash.
abbrev pub IsDirectory : List ℕ → Type 0
IsDirectory path = (path ≡ []) ⊎ ((parent : List ℕ) × (path ≡ parent ++ 47 ∷ []))

ends_in_slash-IsDirectory : (path : List ℕ) → ends_in_slash path ≡ true → IsDirectory path
unfolding ends_in_slash
ends_in_slash-IsDirectory [] e = inl refl
ends_in_slash-IsDirectory (b ∷ []) e = inr ([], ap (λ x. x ∷ []) ((==_iff b 47).0 e))
ends_in_slash-IsDirectory (b ∷ c ∷ path) e = elim (ends_in_slash-IsDirectory (c ∷ path) e) [
  | inl none_left ↦ cc
  | inr (parent, split) ↦ inr (b ∷ parent, ap (λ l. b ∷ l) split)
]

-- The two tests of the constructor.
constructed :
    (ends made : Bool) (t t' : Transport)
    → (if ends then (if made then ok t else fault (thrown thrown_text)) else fault assertion_failed)
      ≡ ok t'
    → (ends ≡ true) × (t ≡ t')
constructed true true t t' e = (refl, ap (λ r. elim r [ ok x ↦ x | fault _ ↦ t ]) e)
constructed true false t t' e = cc
constructed false made t t' e = cc

transport_fs-IsDirectory :
    (os : Os) (base_path : List ℕ) (t : Transport)
    → transport_fs os base_path ≡ ok t
    → IsDirectory base_path × (fs_transport base_path ≡ t)
unfolding transport_fs
transport_fs-IsDirectory os [] t e = (inl refl, ap (λ r. elim r [ ok x ↦ x | fault _ ↦ t ]) e)
transport_fs-IsDirectory os (b ∷ path) t e =
    let (ends, same) =
      constructed (ends_in_slash (b ∷ path)) (os.make_dir (b ∷ path)) (fs_transport (b ∷ path)) t
        e in
    (ends_in_slash-IsDirectory (b ∷ path) ends, same)

-- If the constructor of a TransportFS accepts a base path, then the path is empty or ends in a slash, and
-- a block is written to a file that stands in that directory itself, whatever bytes its id has: what
-- comes behind the path is not empty and has neither a slash nor a dot, so it is not `.` or `..`. The
-- alphabet of base64 has no dot.
pub transport_write-IsFileName :
    {Act : Type 0} (lib : CryptoLib) (os : Os) (base_path : List ℕ) (t : Transport) (b : Block Act)
    (s : System)
    → IsBase64 lib.base64
    → transport_fs os base_path ≡ ok t
    → (name : List ℕ) × IsDirectory base_path
      × IsFileName name
      × (transport_write lib os t b s ≡ write_file os (base_path ++ name) (to_stream b) s)
unfolding block_to_filename transport_write
transport_write-IsFileName lib os base_path t b s law made =
    let (directory, same) = transport_fs-IsDirectory os base_path t made in
    (
      message_digest lib b.id true,
      directory,
      message_digest-IsFileName lib b.id law,
      ap (λ x. transport_write lib os x b s) (sym same) ∙ refl,
    )
