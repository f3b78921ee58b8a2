-- ===== src/Rewrite/Mode.antt =====
-- src/mode.h and src/mode.cpp: the map of modes.
use cryptar.Prelude.{ℕ, Bool, true, false, Option, none, some, ◌==◌, if◌then◌else◌}

pub data Mode : Type 0 where
  verbose testing threads : Mode

abbrev pub index_of : Mode → ℕ
index_of verbose = 0
index_of testing = 1
index_of threads = 2

-- `none` is a mode that the map does not have.
abbrev pub Modes : Type 0
Modes = Mode → Option Bool

-- `mode(m, new_state)`.
unfoldable pub set_mode : Mode → Bool → Modes → Modes
set_mode m new_state modes = λ n. if index_of n == index_of m then some new_state else modes n

-- `mode(m)`; a mode that is not found is reported and taken for false.
unfoldable pub mode : Modes → Mode → Bool
mode modes m = elim (modes m) [ none ↦ false | some state ↦ state ]

-- `ModeInit`.
unfoldable pub init : Modes
init = set_mode threads true (set_mode verbose false (set_mode testing false (λ m. none)))
