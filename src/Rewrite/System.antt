-- ===== src/Rewrite/System.antt =====
-- What the classes of src/ share of the system: the random pool and the files.
--
-- A call of the random pool is numbered; its bytes are a parameter of `cryptar.Rewrite.Crypt`. A file is a
-- list of bytes under its path, and `none` is a file that is not there.
use cryptar.Prelude.{
  ℕ, Bool, Option, some, List, same_bytes, if◌then◌else◌, State, get, put, stop, thrown,
  thrown_text, ◌>>=◌,
}

pub record System : Type 0 where
  pub draws : ℕ
  pub files : List ℕ → Option (List ℕ)

-- Whether a file can be written, and whether a directory is there after `mkdir`.
pub record Os : Type 0 where
  pub writable : List ℕ → Bool
  pub make_dir : List ℕ → Bool

-- A file with new contents, the others as they were.
abbrev pub with_file : List ℕ → List ℕ → System → System
with_file path bytes s = record s {
  files = λ p. if same_bytes path p then some bytes else s.files p;
}

-- A write to an `ofstream` that truncates, and `throw_system_error`, which throws its label.
unfoldable pub write_file : Os → (path bytes : List ℕ) → State System (Unit {0})
write_file os path bytes = do
  s ← get
  if os.writable path then put (with_file path bytes s) else stop (thrown thrown_text)
