-- ===== src/Prelude/Words.antt =====
-- Bytes and big-endian words. A byte is a number below 256; `htonl` and `htons` put the most
-- significant byte first, whatever the byte order of the host.
use Prim.Native.Nat.{ℕ, ◌+◌, ◌-◌, ◌*◌, ◌/◌, ◌%◌, ◌^◌}
use mathlib.Core.List.{List, [], ◌∷◌}
use mathlib.Core.Path.{◌≡◌}
use native.Mathlib.Omega.{arith}

-- `guint32` arithmetic
abbrev pub word : ℕ
word = 2 ^ 32

abbrev pub sub32 : ℕ → ℕ → ℕ
sub32 a b = (a + word - b % word) % word

-- The bytes that `htonl` and `htons` leave in memory.
abbrev pub be16 : ℕ → List ℕ
be16 n = n / 256 % 256 ∷ n % 256 ∷ []

abbrev pub be32 : ℕ → List ℕ
be32 n = n / 2 ^ 24 % 256 ∷ n / 2 ^ 16 % 256 ∷ n / 256 % 256 ∷ n % 256 ∷ []

abbrev pub from_be16 : ℕ → ℕ → ℕ
from_be16 a b = a * 256 + b

abbrev pub from_be32 : ℕ → ℕ → ℕ → ℕ → ℕ
from_be32 a b c d = a * 2 ^ 24 + b * 2 ^ 16 + c * 256 + d

pub from_be32-be32 :
    (n : ℕ) → from_be32 (n / 2 ^ 24 % 256) (n / 2 ^ 16 % 256) (n / 256 % 256) (n % 256) ≡ n % 2 ^ 32
from_be32-be32 n = omega arith

pub from_be16-be16 : (n : ℕ) → from_be16 (n / 256 % 256) (n % 256) ≡ n % 2 ^ 16
from_be16-be16 n = omega arith
