-- ===== src/Rewrite/Crypt/Names.antt =====
-- The digests of src/crypt.cpp that serve as the names of files.
use cryptar.Prelude.{ℕ, ◌+◌, ◌≤◌, ◌<◌, ◌≢◌, true, List, [], ◌∷◌, length, arith}
use cryptar.Rewrite.Crypt.{CryptoLib, message_digest, replace_slashes, drop_newline}

-- No byte is `c`.
abbrev pub Avoids : ℕ → List ℕ → Type 0
Avoids c [] = Unit {0}
Avoids c (b ∷ bytes) = (b ≢ c) × Avoids c bytes

-- The name of a file in a directory, other than `.` and `..`: not empty, without a slash or a dot.
pub record IsFileName (name : List ℕ) : Type 0 where
  pub some_bytes : 0 < length name
  pub no_slash : Avoids 47 name
  pub no_dot : Avoids 46 name

-- The alphabet of base64 has no dot, and the encoding of any bytes is longer than one byte.
pub record IsBase64 (base64 : List ℕ → List ℕ) : Type 0 where
  pub no_dot : (bytes : List ℕ) → Avoids 46 (base64 bytes)
  pub longer : (bytes : List ℕ) → 0 < length bytes → 1 < length (base64 bytes)

replace_slashes-no_slash : (bytes : List ℕ) → Avoids 47 (replace_slashes bytes)
unfolding replace_slashes
replace_slashes-no_slash [] = tt
replace_slashes-no_slash (b ∷ bytes) = (ground arith, replace_slashes-no_slash bytes)

replace_slashes-no_dot : (bytes : List ℕ) → Avoids 46 bytes → Avoids 46 (replace_slashes bytes)
unfolding replace_slashes
replace_slashes-no_dot [] h = tt
replace_slashes-no_dot (b ∷ bytes) (n, h) = (ground arith, replace_slashes-no_dot bytes h)

length-replace_slashes : (bytes : List ℕ) → length bytes ≤ length (replace_slashes bytes)
unfolding replace_slashes
length-replace_slashes [] = omega arith
length-replace_slashes (b ∷ bytes) = omega (arith, length-replace_slashes bytes)

drop_newline-no_dot : (bytes : List ℕ) → Avoids 46 bytes → Avoids 46 (drop_newline bytes)
unfolding drop_newline
drop_newline-no_dot [] h = tt
drop_newline-no_dot (b ∷ []) (n, h) = ground arith
drop_newline-no_dot (b ∷ c ∷ bytes) (n, h) = (n, drop_newline-no_dot (c ∷ bytes) h)

length-drop_newline : (bytes : List ℕ) → length bytes ≤ length (drop_newline bytes) + 1
unfolding drop_newline
length-drop_newline [] = omega arith
length-drop_newline (b ∷ []) = omega arith
length-drop_newline (b ∷ c ∷ bytes) = omega (arith, length-drop_newline (c ∷ bytes))

-- A digest that is meant for a file is the name of one.
pub message_digest-IsFileName :
    (lib : CryptoLib) (message : List ℕ)
    → IsBase64 lib.base64
    → IsFileName (message_digest lib message true)
unfolding message_digest
message_digest-IsFileName lib message law =
    let text = lib.base64 (lib.sha256 message) in
    record {
      some_bytes = omega (
        arith,
        length-replace_slashes (drop_newline text),
        length-drop_newline text,
        law.longer (lib.sha256 message) (omega (arith, lib.length-sha256 message)),
      );
      no_slash = replace_slashes-no_slash (drop_newline text);
      no_dot =
          replace_slashes-no_dot (drop_newline text)
            (drop_newline-no_dot text (law.no_dot (lib.sha256 message)));
    }
