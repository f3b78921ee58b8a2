-- ===== src/Extract/Wanted.antt =====
-- `is_wanted`, the test of `extract_it` of version-1/extract.c.
use cryptar.Prelude.{
  ℕ, ◌≡◌, ◌↔◌, refl, sym, ap, ◌∙◌, true, some, List, ◌++◌, length, take, drop, take-append,
  take-append-drop, same_bytes→eq, same_bytes_self, same_bytes,
}
use cryptar.Filename.{DbFile}
use cryptar.Extract.{is_wanted}

-- With a name given, a file is extracted exactly if its own name starts with that name, whether or not a
-- directory or the whole name ends there.
pub is_wanted-prefix :
    (name : List ℕ) (dbf : DbFile)
    → (is_wanted (some name) dbf ≡ true) ↔ ((rest : List ℕ) × (dbf.filename ≡ name ++ rest))
is_wanted-prefix name dbf = (
  λ e. (
    drop (length name) dbf.filename,
    sym (take-append-drop (length name) dbf.filename)
        ∙ ap (λ l. l ++ drop (length name) dbf.filename)
            (same_bytes→eq (take (length name) dbf.filename) name e),
  ),
  λ (rest, e).
      ap (λ l. same_bytes l name)
        (ap (take (length name)) e ∙ take-append (length name) name rest refl)
      ∙ same_bytes_self name,
)
