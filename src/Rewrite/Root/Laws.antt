-- ===== src/Rewrite/Root/Laws.antt =====
-- The operations of src/root.cpp on the map of stores.
use cryptar.Prelude.{
  ℕ, ◌≡◌, refl, ap, ap₂, ◌∙◌, Bool, true, false, Option, none, some, List, [], ◌∷◌, if◌then◌else◌,
  same_bytes, same_bytes_self, same_bytes→eq, Result, ok, fault, and_then, assertion_failed,
  Bool-cases, inl, inr, arith, subst, ok-inj,
}
use cryptar.Rewrite.System.{Os}
use cryptar.Rewrite.Block.{Transport}
use cryptar.Rewrite.Config.{ConfigParam, transport_of, make_transport}
use cryptar.Rewrite.Root.{Stores, before, find, insert, erase, add_store, get_store, remove_store}

-- The first name of the stores comes behind this one.
abbrev IsAhead : List ℕ → Stores → Type 0
IsAhead name [] = Unit {0}
IsAhead name ((n, t) ∷ rest) = before name n ≡ true

-- The names are in their order.
abbrev pub IsSorted : Stores → Type 0
IsSorted [] = Unit {0}
IsSorted ((n, t) ∷ rest) = IsAhead n rest × IsSorted rest

before_total :
    (as' bs : List ℕ) → before as' bs ≡ false → same_bytes bs as' ≡ false → before bs as' ≡ true
unfolding before
before_total [] [] h d = cc
before_total [] (b ∷ bs) h d = cc
before_total (a ∷ as') [] h d = refl
before_total (a ∷ as') (b ∷ bs) h d = ground (arith, before_total as' bs)

miss :
    (b : Bool) (u : Transport) (r : Option Transport)
    → (if b then some u else r) ≡ none
    → (b ≡ false) × (r ≡ none)
miss true u r e = cc
miss false u r e = (refl, e)

-- Two tests of names that differ can be made in either order.
tests_swapped :
    (n name m : List ℕ) (x y z : Option Transport)
    → same_bytes n name ≡ false
    → (if same_bytes n m then x else if same_bytes name m then y else z)
      ≡ (if same_bytes name m then y else if same_bytes n m then x else z)
tests_swapped n name m x y z d = elim (Bool-cases (same_bytes n m)) [
  | inr f ↦ rw f refl
  | inl a ↦ elim (Bool-cases (same_bytes name m)) [
    | inr f ↦ rw f refl
    | inl b ↦ (let same = ap (same_bytes n) (same_bytes→eq name m b) ∙ a in cc)
  ]
]

find-insert :
    (m name : List ℕ) (t : Transport) (s : Stores)
    → find name s ≡ none
    → find m (insert name t s) ≡ (if same_bytes name m then some t else find m s)
unfolding find insert
find-insert m name t [] e = refl
find-insert m name t ((n, u) ∷ s) e =
    let (d, e') = miss (same_bytes n name) u (find name s) e in
    elim (Bool-cases (before name n)) [
      | inl b ↦ rw b refl
      | inr b ↦ rw b (
          ap (λ r. if same_bytes n m then some u else r) (find-insert m name t s e')
          ∙ tests_swapped n name m (some u) (some t) (find m s) d)
    ]

erase-insert :
    (name : List ℕ) (t : Transport) (s : Stores)
    → find name s ≡ none
    → erase name (insert name t s) ≡ s
unfolding find insert erase
erase-insert name t [] e = rw (same_bytes_self name) refl
erase-insert name t ((n, u) ∷ s) e =
    let (d, e') = miss (same_bytes n name) u (find name s) e in
    elim (Bool-cases (before name n)) [
      | inl b ↦ rw b (rw (same_bytes_self name) refl)
      | inr b ↦ rw b (rw d (ap (λ r. (n, u) ∷ r) (erase-insert name t s e')))
    ]

-- A store that goes behind one goes behind it in what follows.
IsAhead-insert :
    (n name : List ℕ) (t : Transport) (s : Stores)
    → before n name ≡ true
    → IsAhead n s
    → IsAhead n (insert name t s)
unfolding insert
IsAhead-insert n name t [] b h = b
IsAhead-insert n name t ((k, u) ∷ s) b h = elim (Bool-cases (before name k)) [
  | inl c ↦ rw c b
  | inr c ↦ rw c h
]

insert-IsSorted :
    (name : List ℕ) (t : Transport) (s : Stores)
    → find name s ≡ none
    → IsSorted s
    → IsSorted (insert name t s)
unfolding find insert
insert-IsSorted name t [] e h = (tt, tt)
insert-IsSorted name t ((n, u) ∷ s) e h =
    let (d, e') = miss (same_bytes n name) u (find name s) e in
    elim (Bool-cases (before name n)) [
      | inl b ↦ rw b (b, h)
      | inr b ↦
          rw b (
            IsAhead-insert n name t s (before_total name n b d) h.0,
            insert-IsSorted name t s e' h.1,
          )
    ]

made_again :
    (os : Os) (param param' : ConfigParam) (t : Transport) (r : Result Transport)
    → and_then {B = Transport × ConfigParam} r (λ u. ok (u, record param { transport = some u }))
      ≡ ok (t, param')
    → transport_of os param' ≡ ok (t, param')
unfolding transport_of
made_again os param param' t (ok u) e =
    let (same, same') = ok-inj e in
    subst (λ x. transport_of os x.1 ≡ ok x) (ap₂ (λ a b. (a, b)) same same') refl
made_again os param param' t (fault x) e = cc

-- A transport is made once.
transport_of-transport_of :
    (os : Os) (param param' : ConfigParam) (t : Transport)
    → transport_of os param ≡ ok (t, param')
    → transport_of os param' ≡ ok (t, param')
unfolding transport_of
transport_of-transport_of os param param' t e = go param.transport e
  where
    go :
        (o : Option Transport)
        → Path
            (Result (Transport × ConfigParam))
            (elim o [
              | some t ↦ ok (t, param)
              | none ↦
                  and_then
                    (make_transport os param)
                    λ t. ok (t, record param { transport = some t })
            ])
            (ok (t, param'))
        → transport_of os param' ≡ ok (t, param')
    go none e' = made_again os param param' t (make_transport os param) e'
    go (some u) e' = subst (λ x. transport_of os x ≡ ok (t, param')) (ok-inj e').1 e

get_store-find :
    (m : List ℕ) (s s' : Stores) → find m s' ≡ find m s → get_store m s' ≡ get_store m s
unfolding get_store
get_store-find m s s' e =
    ap
      (λ o.
        let r : Result Transport = elim o [ none ↦ fault assertion_failed | some t ↦ ok t ] in r)
      e

-- A store under a new name, with a transport that can be made, is added: it is found then and the others
-- are as before, the names stay in their order, adding it once more stops at an assertion, and removing
-- it gives the stores as they were.
pub get_store-add_store :
    (os : Os) (name : List ℕ) (param param' : ConfigParam) (s : Stores) (t : Transport)
    → find name s ≡ none
    → transport_of os param ≡ ok (t, param')
    → IsSorted s
    → (s' : Stores) × (add_store os name param s ≡ ok (t, s', param'))
      × (get_store name s' ≡ ok t)
      × ((m : List ℕ) → same_bytes name m ≡ false → get_store m s' ≡ get_store m s)
      × IsSorted s'
      × (add_store os name param' s' ≡ fault assertion_failed)
      × (remove_store name s' ≡ ok s)
unfolding add_store get_store remove_store
get_store-add_store os name param param' s t new made sorted =
    let found =
      find-insert name name t s new
      ∙ ap (λ b. if b then some t else find name s) (same_bytes_self name) in
    (
      insert name t s,
      rw (add_store, new, made, transport_of-transport_of os param param' t made) refl,
      rw (get_store, found) refl,
      λ m ne.
          get_store-find m s (insert name t s)
            (find-insert m name t s new ∙ ap (λ b. if b then some t else find m s) ne),
      insert-IsSorted name t s new sorted,
      rw (add_store, found) refl,
      rw (remove_store, found, erase-insert name t s new) refl,
    )
