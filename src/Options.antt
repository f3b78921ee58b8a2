-- ===== src/Options.antt =====
-- version-1/option.c and version-1/options.c: the options that the command line sets.
--
-- The two arrays of options.c are a record; the pattern options, which nothing sets, are left out.
-- `getopt_long` is not modelled: its results are a list of `Flag`, followed by the arguments that are
-- left. MAINTAINER_MODE is defined, as in version-1/Makefile.
pub mod Safety
use cryptar.Prelude.{
  ℕ, ◌+◌, Bool, true, false, not, ◌||◌, ◌&&◌, Option, none, some, List, [], ◌∷◌, ltb, ◌==◌,
  if◌then◌else◌, length, Result, ok, fault, assertion_failed, exited, and_then,
}

pub record Options : Type 0 where
  pub backup : ℕ
  pub create : ℕ
  pub extract : ℕ
  pub list : ℕ
  pub server : ℕ
  pub ping : ℕ
  pub verbose : ℕ
  pub dryrun : ℕ
  pub self_test : ℕ
  pub archive_target : Option (List ℕ)
  pub args : List (List ℕ)

-- `options_init`: static storage is zero, and the `memset` with a length of 0 changes nothing.
abbrev pub init : Options
init = record {
  backup = 0;
  create = 0;
  extract = 0;
  list = 0;
  server = 0;
  ping = 0;
  verbose = 0;
  dryrun = 0;
  self_test = 0;
  archive_target = none;
  args = [];
}

-- A result of `getopt_long`; `verbose_flag` has `atoi(optarg)`, if there is an argument.
pub data Flag : Type 0 where
  backup_flag create_flag extract_flag list_flag ping_flag : Flag
  verbose_flag : Option ℕ → Flag
  dry_run_flag daemon_flag help_flag self_test_flag missing_argument unknown_flag : Flag

-- The `switch` of `parse_options`: `none` where the function returns 1.
unfoldable pub set_flag : Flag → Options → Result (Option Options)
set_flag backup_flag o = ok (some (record o { backup = 1 }))
set_flag create_flag o = ok (some (record o { create = 1 }))
set_flag extract_flag o = ok (some (record o { extract = 1 }))
set_flag list_flag o = ok (some (record o { list = 1 }))
set_flag ping_flag o = ok (some (record o { ping = 1 }))
set_flag (verbose_flag none) o = ok (some (record o { verbose = 1 }))
set_flag (verbose_flag (some n)) o =
    if n == 0 then ok none else ok (some (record o { verbose = n }))
set_flag dry_run_flag o = fault assertion_failed
set_flag daemon_flag o = ok (some (record o { server = 1 }))
set_flag help_flag o = fault exited
set_flag self_test_flag o = ok (some (record o { self_test = 1 }))
set_flag missing_argument o = ok none
set_flag unknown_flag o = ok none

-- The loop over the flags.
unfoldable pub set_flags : List Flag → Options → Result (Option Options)
set_flags [] o = ok (some o)
set_flags (flag ∷ flags) o =
    and_then (set_flag flag o) λ next. elim next [ none ↦ ok none | some o' ↦ set_flags flags o' ]

-- The first argument is the archive, the others are what to extract.
unfoldable pub set_args : List (List ℕ) → Options → Options
set_args [] o = o
set_args (target ∷ args) o = record o { archive_target = some target; args = args }

-- The test that there is something to do.
abbrev pub has_action : Options → Bool
has_action o =
    not (o.backup == 0)
    || not (o.extract == 0)
    || not (o.self_test == 0)
    || not (o.list == 0)
    || not (o.server == 0)
    || not (o.ping == 0)
    || not (o.create == 0)

abbrev pub has_target : Options → Bool
has_target o = elim o.archive_target [ none ↦ false | some _ ↦ true ]

-- The options are 0 or 1, so the bitwise operators of the last test are those of truth values.
unfoldable pub flags_consistent : Options → Bool
flags_consistent o =
    not (ltb 1 (o.backup + o.extract + o.list + o.server))
    && not (ltb 1 (o.backup + o.extract + o.list + o.ping))
    && not (
        (not (o.backup == 0)
          || not (o.extract == 0)
          || not (o.list == 0)
          || not (o.server == 0)
          || not (o.ping == 0))
        && not (has_target o))

-- The options where the function returns 0, `none` where it returns 1.
unfoldable pub parse_options : List Flag → List (List ℕ) → Result (Option Options)
parse_options flags args = and_then (set_flags flags init) λ parsed. elim parsed [
  | none ↦ ok none
  | some o ↦
      let o' : Options = set_args args o in
      if has_action o' && flags_consistent o' then ok (some o') else ok none
]

-- `n` arguments, or more of them if `more`; `num_args` counts the archive too.
unfoldable pub confirm_arguments : (num_args n : ℕ) (more : Bool) → Bool
confirm_arguments num_args n more = num_args == n || (ltb n num_args && more)
