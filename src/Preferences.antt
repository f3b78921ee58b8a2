-- ===== src/Preferences.antt =====
-- version-1/prefs.c: the preferences, which are constants in their database, and the making of an archive.
--
-- What the user types is an argument, as the lines that `fgets` reads; `atoi` and `rand` are those of the C
-- library. What is printed is not modelled.
use cryptar.Prelude.{
  ℕ, Bool, true, false, Option, none, some, List, [], ◌∷◌, ◌==◌, if◌then◌else◌, pure, ◌>>=◌, ◌>>◌,
}
use cryptar.Constants
use cryptar.Database.{Database, constants, BerkeleyDb, Store}
use cryptar.Database.Opening.{db_open, pref_archive_pass}

-- The names of preferences, as bytes.
abbrev pub pref_daemon_command : List ℕ
pref_daemon_command =
    100 ∷ 97 ∷ 101 ∷ 109 ∷ 111 ∷ 110 ∷ 95 ∷ 99 ∷ 111 ∷ 109 ∷ 109 ∷ 97 ∷ 110 ∷ 100 ∷ []

abbrev pub pref_to_archive : List ℕ
pref_to_archive = 116 ∷ 111 ∷ 95 ∷ 97 ∷ 114 ∷ 99 ∷ 104 ∷ 105 ∷ 118 ∷ 101 ∷ []

abbrev pub pref_block_length : List ℕ
pref_block_length = 98 ∷ 108 ∷ 111 ∷ 99 ∷ 107 ∷ 95 ∷ 108 ∷ 101 ∷ 110 ∷ 103 ∷ 116 ∷ 104 ∷ []

abbrev pub pref_must_create : List ℕ
pref_must_create = 109 ∷ 117 ∷ 115 ∷ 116 ∷ 95 ∷ 99 ∷ 114 ∷ 101 ∷ 97 ∷ 116 ∷ 101 ∷ []

-- Two defaults, as bytes; the length is that of MAINTAINER_MODE, which version-1/Makefile defines.
abbrev default_command : List ℕ
default_command =
    115 ∷ 115 ∷ 104 ∷ 32 ∷ 104 ∷ 111 ∷ 115 ∷ 116 ∷ 32 ∷ 99 ∷ 114 ∷ 121 ∷ 112 ∷ 116 ∷ 97 ∷ 114 ∷ 32
    ∷ 45 ∷ 45 ∷ 100 ∷ 97 ∷ 101 ∷ 109 ∷ 111 ∷ 110 ∷ []

abbrev default_length : List ℕ
default_length = 52 ∷ []

-- A text, or another one where it is missing.
abbrev text_or : List ℕ → Option (List ℕ) → List ℕ
text_or other none = other
text_or other (some text) = text

-- `get_pref_from_user`, on the line that was typed without its end; an empty one is the default.
abbrev pub get_pref_from_user : (default_val line : List ℕ) → List ℕ
get_pref_from_user default_val [] = default_val
get_pref_from_user default_val (c ∷ line) = c ∷ line

-- The test on the last answer: a `y` or a `Y` in front.
abbrev pub agrees : List ℕ → Bool
agrees [] = false
agrees (c ∷ _) = if c == 121 then true else c == 89

module _ (lib : BerkeleyDb) where
  -- A missing preference is the empty text.
  unfoldable pub pref_get_value : (key : List ℕ) → Store lib (List ℕ)
  pref_get_value key = do value ← Constants.get_string lib key; pure (text_or [] value)

  unfoldable pub pref_get_value_silent_default : (key deflt : List ℕ) → Store lib (List ℕ)
  pref_get_value_silent_default key deflt = do
    value ← Constants.get_string lib key
    pure (text_or deflt value)

  abbrev pub pref_get_int_value : (key : List ℕ) → Store lib ℕ
  pref_get_int_value key = Constants.get_int lib key

  -- The default is not looked at.
  abbrev pub pref_get_int_value_silent_default : (key deflt : List ℕ) → Store lib ℕ
  pref_get_int_value_silent_default key deflt = Constants.get_int lib key

-- The three lines that are typed, and the answer to the last question.
pub record Answers : Type 0 where
  pub daemon_command : List ℕ
  pub to_archive : List ℕ
  pub block_length : List ℕ
  pub is_ok : List ℕ

module _ (lib : BerkeleyDb) (open_db : Database → Option lib.Db) (atoi : List ℕ → ℕ) (rand : ℕ)
    (home : List ℕ) where
  unfoldable pub store_answers : Answers → Store lib (Unit {0})
  store_answers a = do
    db_open lib open_db constants
    Constants.put_string lib pref_daemon_command
        (get_pref_from_user default_command a.daemon_command)
    Constants.put_string lib pref_to_archive (get_pref_from_user home a.to_archive)
    Constants.put_int lib pref_block_length
        (atoi (get_pref_from_user default_length a.block_length))
    Constants.put_int lib pref_archive_pass rand
    Constants.put_int lib pref_must_create 1

  -- `home` is the value of HOME.
  unfoldable pub do_create : Answers → Store lib (Unit {0})
  unfolding store_answers
  do_create a = if agrees a.is_ok then store_answers a else pure tt
