-- ===== src/Tickets/Registry/Laws.antt =====
-- The work list of version-1/workticket.c: the first ticket of a file, and what a change of it leaves.
use cryptar.Prelude.{
  ℕ, ◌<◌, ◌≡◌, ◌≢◌, refl, ap, ◌∙◌, arith, Bool, true, false, Bool-cases, inl, inr, Option, none,
  some, List, [], ◌∷◌, ◌++◌, ok, ◌==◌, ne→not_==, if◌then◌else◌, ◌⊎◌, subst, ==_iff, sym,
}
use mathlib.Core.Option.{some-injective}
use cryptar.Block.{DbBlock}
use cryptar.Process.{Env, Process}
use cryptar.Tickets.{WorkTicket}
use cryptar.Tickets.Registry.{
  is_for, find_ticket, replace_ticket, drop_ticket, find_block, replace_block, find,
}

-- Which of two cases has found something.
chosen {ℓ} :
    {A : Type ℓ} (b : Bool) (o : Option A) (x y : A)
    → (if b then some x else o) ≡ some y
    → ((b ≡ true) × (x ≡ y)) ⊎ ((b ≡ false) × (o ≡ some y))
chosen true o x y e = inl (refl, some-injective x y e)
chosen false o x y e = inr (refl, e)

pub find_ticket-is_for :
    (file_id : ℕ) (wts : List WorkTicket) (wt : WorkTicket)
    → find_ticket file_id wts ≡ some wt
    → is_for file_id wt ≡ true
find_ticket-is_for file_id [] wt e = cc
find_ticket-is_for file_id (w ∷ wts) wt e =
    elim (chosen (is_for file_id w) (find_ticket file_id wts) w wt e) [
      | inl (t, same) ↦ subst (λ v. is_for file_id v ≡ true) same t
      | inr (_, later) ↦ find_ticket-is_for file_id wts wt later
    ]

-- A ticket that replaces the first one of its file is found instead of it.
pub find_ticket-replace_ticket :
    (file_id : ℕ) (wts : List WorkTicket) (wt wt' : WorkTicket)
    → find_ticket file_id wts ≡ some wt
    → is_for file_id wt' ≡ true
    → find_ticket file_id (replace_ticket file_id wt' wts) ≡ some wt'
find_ticket-replace_ticket file_id [] wt wt' e h = cc
find_ticket-replace_ticket file_id (w ∷ wts) wt wt' e h =
    elim (chosen (is_for file_id w) (find_ticket file_id wts) w wt e) [
      | inl (t, same) ↦ rw (t, h) refl
      | inr (f, later) ↦ rw (f, f) (find_ticket-replace_ticket file_id wts wt wt' later h)
    ]

pub find_block-replace_block :
    (block_id : ℕ) (blocks : List DbBlock) (dbb dbb' : DbBlock)
    → find_block blocks block_id ≡ some dbb
    → dbb'.local_id ≡ block_id
    → find_block (replace_block block_id dbb' blocks) block_id ≡ some dbb'
find_block-replace_block block_id [] dbb dbb' e h = cc
find_block-replace_block block_id (b ∷ blocks) dbb dbb' e h =
    ground (arith, find_block-replace_block block_id blocks dbb dbb')

module _ (env : Env) where
  pub find-run :
      (file_id : ℕ) (p : Process env.lib) (wt : WorkTicket)
      → 0 < file_id
      → find_ticket file_id p.work_list ≡ some wt
      → find env file_id p ≡ ok (wt, p)
  unfolding find
  find-run file_id p wt pos e = rw (ne→not_== file_id 0 (omega arith), e) refl

pub find_ticket-drop_ticket :
    (file_id other : ℕ) (wts : List WorkTicket)
    → file_id ≢ other
    → find_ticket other (drop_ticket file_id wts) ≡ find_ticket other wts
find_ticket-drop_ticket file_id other [] h = refl
find_ticket-drop_ticket file_id other (w ∷ wts) h = elim (Bool-cases (is_for file_id w)) [
  | inl t ↦
      let same : w.dbf.file_id ≡ file_id = (==_iff w.dbf.file_id file_id).0 t in
      let not_other : is_for other w ≡ false =
        ne→not_== w.dbf.file_id other (λ e. h (sym same ∙ e)) in
      rw (t, not_other) refl
  | inr f ↦
      rw f (
        ap (λ o. if is_for other w then some w else o)
          (find_ticket-drop_ticket file_id other wts h))
]

-- A ticket that is dropped is the first one of its file, and the others stay in their order.
pub drop_ticket-found :
    (file_id : ℕ) (wts : List WorkTicket) (wt : WorkTicket)
    → find_ticket file_id wts ≡ some wt
    → (before after : List WorkTicket) × (wts ≡ before ++ (wt ∷ after))
      × (find_ticket file_id before ≡ none)
      × (drop_ticket file_id wts ≡ before ++ after)
drop_ticket-found file_id [] wt e = cc
drop_ticket-found file_id (w ∷ wts) wt e =
    elim (chosen (is_for file_id w) (find_ticket file_id wts) w wt e) [
      | inl (t, same) ↦ ([], wts, ap (λ x. x ∷ wts) same, refl, rw t refl)
      | inr (f, later) ↦
          let (before, after, split, first, dropped) = drop_ticket-found file_id wts wt later in
          (w ∷ before, after, ap (λ l. w ∷ l) split, rw f first, rw f (ap (λ l. w ∷ l) dropped))
    ]

pub find_block-local_id :
    (block_id : ℕ) (blocks : List DbBlock) (dbb : DbBlock)
    → find_block blocks block_id ≡ some dbb
    → dbb.local_id ≡ block_id
find_block-local_id block_id [] dbb e = cc
find_block-local_id block_id (b ∷ blocks) dbb e =
    elim (chosen (b.local_id == block_id) (find_block blocks block_id) b dbb e) [
      | inl (t, same) ↦ subst (λ d. d.local_id ≡ block_id) same ((==_iff b.local_id block_id).0 t)
      | inr (_, later) ↦ find_block-local_id block_id blocks dbb later
    ]
