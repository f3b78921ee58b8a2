-- ===== src/Rewrite/Root.antt =====
-- src/root.h and src/root.cpp: the stores that the root block names.
--
-- The map is a list of names and transports in the order of the names, which `std::map` compares by bytes.

pub mod Laws
use cryptar.Prelude.{
  ℕ, Bool, true, false, Option, none, some, List, [], ◌∷◌, ltb, ◌==◌, if◌then◌else◌, same_bytes,
  Result, ok, fault, assertion_failed, and_then,
}
use cryptar.Rewrite.System.{Os}
use cryptar.Rewrite.Block.{Transport}
use cryptar.Rewrite.Config.{ConfigParam, transport_of}

abbrev pub Stores : Type 0
Stores = List (List ℕ × Transport)

-- The order of strings.
unfoldable pub before : List ℕ → List ℕ → Bool
before as' [] = false
before [] (b ∷ bs) = true
before (a ∷ as') (b ∷ bs) = if a == b then before as' bs else ltb a b

-- `find`.
unfoldable pub find : List ℕ → Stores → Option Transport
find name [] = none
find name ((n, t) ∷ stores) = if same_bytes n name then some t else find name stores

-- A store that is not in the map yet.
unfoldable pub insert : List ℕ → Transport → Stores → Stores
insert name t [] = (name, t) ∷ []
insert name t ((n, u) ∷ stores) =
    if before name n then (name, t) ∷ (n, u) ∷ stores else (n, u) ∷ insert name t stores

unfoldable pub erase : List ℕ → Stores → Stores
erase name [] = []
erase name ((n, t) ∷ stores) = if same_bytes n name then stores else (n, t) ∷ erase name stores

-- The transport, the map and the parameters afterwards; the transport is made once.
unfoldable pub add_store :
    Os → (in_name : List ℕ) → ConfigParam → Stores → Result (Transport × Stores × ConfigParam)
add_store os in_name param stores = elim (find in_name stores) [
  | some t ↦ fault assertion_failed
  | none ↦ and_then (transport_of os param) λ (t, param').
      and_then (transport_of os param') λ (u, param''). ok (u, insert in_name t stores, param'')
]

unfoldable pub get_store : (in_name : List ℕ) → Stores → Result Transport
get_store in_name stores = elim (find in_name stores) [
  | none ↦ fault assertion_failed
  | some t ↦ ok t
]

unfoldable pub remove_store : (in_name : List ℕ) → Stores → Result Stores
remove_store in_name stores = elim (find in_name stores) [
  | none ↦ fault assertion_failed
  | some t ↦ ok (erase in_name stores)
]

unfoldable pub stores : Stores → List (List ℕ)
stores [] = []
stores ((n, t) ∷ rest) = n ∷ stores rest
