-- ===== src/Options/Safety.antt =====
-- `parse_options` of version-1/option.c, on any command line.
use cryptar.Prelude.{
  subst, sym, ◌∙◌, not, ◌||◌, ◌&&◌, ap, fault, ℕ, ◌+◌, ◌≤◌, ◌≡◌, ◌≢◌, refl, Bool, true, false,
  Option, none, some, List, [], ◌∷◌, Result, ok, and_then, arith, ◌==◌, if◌then◌else◌, ltb,
}
use cryptar.Options.{
  Options, Flag, init, set_flag, set_flags, set_args, has_action, has_target, flags_consistent,
  parse_options,
}

-- Every option that is a switch is off or on.
pub record AreSwitches (o : Options) : Type 0 where
  pub backup : o.backup ≤ 1
  pub create : o.create ≤ 1
  pub extract : o.extract ≤ 1
  pub list : o.list ≤ 1
  pub server : o.server ≤ 1
  pub ping : o.ping ≤ 1
  pub self_test : o.self_test ≤ 1

-- What is left is one of the actions that `main` knows how to do.
pub record IsUsable (o : Options) : Type 0 where
  pub switches : AreSwitches o
  pub some_action : o.backup + o.create + o.extract + o.list + o.server + o.ping + o.self_test ≢ 0
  pub one_of_four : o.backup + o.extract + o.list + o.server ≤ 1
  pub one_with_ping : o.backup + o.extract + o.list + o.ping ≤ 1
  pub target : o.backup + o.extract + o.list + o.server + o.ping ≢ 0 → o.archive_target ≢ none

set_flag-AreSwitches :
    (flag : Flag) (o o' : Options) → AreSwitches o → set_flag flag o ≡ ok (some o') → AreSwitches o'
unfolding set_flag
set_flag-AreSwitches flag o o' w e = grind arith

some-inj : {o o' : Options} → ok (some o) ≡ ok (some o') → o ≡ o'
some-inj {o} e = ap (λ r. elim r [ ok x ↦ elim x [ none ↦ o | some y ↦ y ] | fault _ ↦ o ]) e

-- A run that goes on goes on from something.
goes_on :
    (r : Result (Option Options)) (k : Options → Result (Option Options)) (o : Options)
    → and_then r (λ next. elim next [ none ↦ ok none | some o' ↦ k o' ]) ≡ ok (some o)
    → (o' : Options) × (r ≡ ok (some o')) × (k o' ≡ ok (some o))
goes_on (ok (some o')) k o e = (o', refl, e)
goes_on (ok none) k o e = cc
goes_on (fault x) k o e = cc

set_flags-AreSwitches :
    (flags : List Flag) (o o' : Options)
    → AreSwitches o
    → set_flags flags o ≡ ok (some o')
    → AreSwitches o'
unfolding set_flags
set_flags-AreSwitches [] o o' w e = subst AreSwitches (some-inj e) w
set_flags-AreSwitches (flag ∷ flags) o o' w e =
    let (o'', first, rest) = goes_on (set_flag flag o) (set_flags flags) o' e in
    set_flags-AreSwitches flags o'' o' (set_flag-AreSwitches flag o o'' w first) rest

set_args-AreSwitches :
    (args : List (List ℕ)) (o : Options) → AreSwitches o → AreSwitches (set_args args o)
unfolding set_args
set_args-AreSwitches [] o w = w
set_args-AreSwitches (target ∷ args) o w = ground arith

accepted :
    (b : Bool) (o o' : Options)
    → (if b then ok (some o) else ok none) ≡ ok (some o')
    → (b ≡ true) × (o ≡ o')
accepted true o o' e = (refl, some-inj e)
accepted false o o' e = cc

and-both : (a b : Bool) → (a && b) ≡ true → (a ≡ true) × (b ≡ true)
and-both true b e = (refl, e)
and-both false b e = cc

not_over : (n : ℕ) → not (ltb 1 n) ≡ true → n ≤ 1
not_over n e = ground arith

has_action-some :
    (o : Options)
    → has_action o ≡ true
    → o.backup + o.create + o.extract + o.list + o.server + o.ping + o.self_test ≢ 0
has_action-some o e = ground arith

names_target :
    (o : Options)
    → not (
        (not (o.backup == 0)
          || not (o.extract == 0)
          || not (o.list == 0)
          || not (o.server == 0)
          || not (o.ping == 0))
        && not (has_target o))
      ≡ true
    → o.backup + o.extract + o.list + o.server + o.ping ≢ 0
    → o.archive_target ≢ none
names_target o e c = ground arith

flags-IsUsable :
    (o : Options) → AreSwitches o → (has_action o && flags_consistent o) ≡ true → IsUsable o
unfolding flags_consistent
flags-IsUsable o w e =
    let (acts, consistent) = and-both (has_action o) (flags_consistent o) e in
    let (sums, target) =
      and-both
        (not (ltb 1 (o.backup + o.extract + o.list + o.server))
          && not (ltb 1 (o.backup + o.extract + o.list + o.ping)))
        _ consistent in
    let (four, ping) =
      and-both (not (ltb 1 (o.backup + o.extract + o.list + o.server)))
        (not (ltb 1 (o.backup + o.extract + o.list + o.ping))) sums in
    record {
      switches = w;
      some_action = has_action-some o acts;
      one_of_four = not_over (o.backup + o.extract + o.list + o.server) four;
      one_with_ping = not_over (o.backup + o.extract + o.list + o.ping) ping;
      target = names_target o target;
    }

-- A flag does not name the archive.
set_flag-target :
    (flag : Flag) (o o' : Options)
    → set_flag flag o ≡ ok (some o')
    → o'.archive_target ≡ o.archive_target
unfolding set_flag
set_flag-target flag o o' e = grind arith

set_flags-target :
    (flags : List Flag) (o o' : Options)
    → set_flags flags o ≡ ok (some o')
    → o'.archive_target ≡ o.archive_target
unfolding set_flags
set_flags-target [] o o' e = ap (λ x. x.archive_target) (sym (some-inj e))
set_flags-target (flag ∷ flags) o o' e =
    let (o'', first, rest) = goes_on (set_flag flag o) (set_flags flags) o' e in
    set_flags-target flags o'' o' rest ∙ set_flag-target flag o o'' first

-- Without arguments there is no archive.
pub parse_options-no_target :
    (flags : List Flag) (o : Options)
    → parse_options flags [] ≡ ok (some o)
    → o.archive_target ≡ none
unfolding parse_options set_args
parse_options-no_target flags o e =
    let (o', parsed, tested) = goes_on (set_flags flags init) (λ o'. test o') o e in
    let (good, same) = accepted (has_action o' && flags_consistent o') o' o tested in
    ap (λ x. x.archive_target) (sym same) ∙ set_flags-target flags init o' parsed
  where
    test : Options → Result (Option Options)
    test o' = if has_action o' && flags_consistent o' then ok (some o') else ok none

-- Whatever the command line is, in options that `parse_options` accepts every switch is off or on, at
-- least one of them asks for something to be done, at most one of backing up, extracting, listing and
-- serving is on, at most one of the first three and pinging is on, and if one of these five is on, then
-- an archive is named. Creating an archive and the self-test go with any of them, and need no archive.
pub parse_options-IsUsable :
    (flags : List Flag) (args : List (List ℕ)) (o : Options)
    → parse_options flags args ≡ ok (some o)
    → IsUsable o
unfolding parse_options
parse_options-IsUsable flags args o e =
    let (o', parsed, tested) = goes_on (set_flags flags init) (λ o'. test (set_args args o')) o e in
    let (good, same) =
      accepted (has_action (set_args args o') && flags_consistent (set_args args o'))
        (set_args args o') o tested in
    let w =
      set_args-AreSwitches args o' (set_flags-AreSwitches flags init o' (omega arith) parsed) in
    subst IsUsable same (flags-IsUsable (set_args args o') w good)
  where
    test : Options → Result (Option Options)
    test o' = if has_action o' && flags_consistent o' then ok (some o') else ok none
