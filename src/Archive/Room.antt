-- ===== src/Archive/Room.antt =====
-- The work list while the trees are walked, `archive_it` of version-1/archive.c.
use cryptar.Prelude.{
  ℕ, zero, suc, ◌≤◌, ◌≡◌, sym, ap, ◌∙◌, arith, Bool, true, false, Bool-cases, inl, inr, Option,
  none, some, List, [], ◌∷◌, ◌++◌, not_ltb→le, length, length-append, ok, pure, get, ltb,
  if◌then◌else◌, run_next-ok, ok-inj, pure-Keeps, get-Keeps, lift-Keeps, >>=-Keeps, if-Keeps, ◌>>=◌,
  ◌>>◌,
}
use cryptar.Archive.{
  Entry, file, directory, unreadable, no_stat, symbolic_link, archive_it, archive_all,
  archive_trees, archive_file, wait_for_room, identify, add_file, open_if_changed, prepare,
  known_file, queue_file, archive_entry, ticket_of, changed_summary,
}
use cryptar.Filename.{DbFile}
use cryptar.Summary.{DbSummary, Stat}
use cryptar.Process.{Env, Process, Proc}
use cryptar.Process.Input.{
  KeepsWork, work_list-IsOfQueues, with_dbs-Keeps, with_hash-Keeps, send-Keeps,
}
use cryptar.Requests.Sending.{request_block_list}
use cryptar.Tickets.{WorkTicket}
use cryptar.Tickets.Registry

ruleset keeps = (
  work_list-IsOfQueues, >>=-Keeps, if-Keeps, pure-Keeps, get-Keeps, lift-Keeps, with_dbs-Keeps,
  with_hash-Keeps, send-Keeps,
)

module _ (env : Env) (cycle : Proc env (Unit {0})) (now : ℕ) where
  request_block_list-KeepsWork : (wt : WorkTicket) → KeepsWork env (request_block_list env wt)
  unfolding request_block_list
  request_block_list-KeepsWork wt = search keeps

  add_file-KeepsWork : (name : List ℕ) (sb : Stat) → KeepsWork env (add_file env cycle now name sb)
  unfolding add_file
  add_file-KeepsWork name sb = search keeps

  known_file-KeepsWork :
      (name : List ℕ) (sb : Stat) (found : Option DbFile)
      → KeepsWork env (known_file env cycle now name sb found)
  known_file-KeepsWork name sb none = search add_file-KeepsWork
  known_file-KeepsWork name sb (some dbf) = search keeps

  identify-KeepsWork : (name : List ℕ) (sb : Stat) → KeepsWork env (identify env cycle now name sb)
  unfolding identify
  identify-KeepsWork name sb = search (keeps, known_file-KeepsWork)

  open_if_changed-KeepsWork :
      (sb : Stat) (content : Option (List ℕ)) (dbs : DbSummary) (anyway : Bool)
      → KeepsWork env (open_if_changed env cycle now sb content dbs anyway)
  unfolding open_if_changed
  open_if_changed-KeepsWork sb content dbs anyway = search keeps

  prepare-KeepsWork :
      (wt : WorkTicket) (new_file : Bool) → KeepsWork env (prepare env cycle now wt new_file)
  unfolding prepare
  prepare-KeepsWork wt true = search keeps
  prepare-KeepsWork wt false = search (keeps, request_block_list-KeepsWork)

  -- The handlers that the event loop runs take tickets off the list and add none.
  abbrev pub AddsNone : Type 0
  AddsNone =
      (q q' : Process env.lib) → cycle q ≡ ok (tt, q') → length q'.work_list ≤ length q.work_list

  queue_file-length :
      (dbf : DbFile) (sb : Stat) (new_file : Bool) (opened : Option (List ℕ × DbSummary))
      (p p' : Process env.lib)
      → AddsNone
      → queue_file env cycle now dbf sb new_file opened p ≡ ok (tt, p')
      → length p'.work_list ≤ suc (length p.work_list)
  unfolding Registry.insert
  queue_file-length dbf sb new_file none p p' c e =
      omega (arith, ap (λ q. length q.work_list) (ok-inj e).1)
  queue_file-length dbf sb new_file (some (content, dbs)) p p' c e =
      let wt0 : WorkTicket =
        ticket_of env cycle now dbf (changed_summary env cycle now sb dbs) content in
      let (wt, s, run, rest) =
        run_next-ok (prepare env cycle now wt0 new_file p) (λ wt. Registry.insert env wt >> cycle)
          e in
      let grown = length-append s.work_list (wt ∷ []) in
      omega (
        arith,
        (prepare-KeepsWork wt0 new_file).same p run,
        grown,
        c (record s { work_list = s.work_list ++ (wt ∷ []); output_watched = true }) p' rest,
      )

  archive_file-length :
      (name : List ℕ) (sb : Stat) (content : Option (List ℕ)) (p p' : Process env.lib)
      → AddsNone
      → archive_file env cycle now name sb content p ≡ ok (tt, p')
      → length p'.work_list ≤ suc (length p.work_list)
  unfolding archive_file
  archive_file-length name sb content p p' c e =
      let ((dbf, dbs, new_file), s, run, rest) =
        run_next-ok (identify env cycle now name sb p)
          (λ (dbf, dbs, new_file).
            open_if_changed env cycle now sb content dbs new_file
            >>= queue_file env cycle now dbf sb new_file)
          e in
      let (opened, s', run', rest') =
        run_next-ok (open_if_changed env cycle now sb content dbs new_file s)
          (queue_file env cycle now dbf sb new_file) rest in
      omega (
        arith,
        (identify-KeepsWork name sb).same p run,
        (open_if_changed-KeepsWork sb content dbs new_file).same s run',
        queue_file-length dbf sb new_file opened s' p' c rest',
      )

  archive_entry-length :
      (entry : Entry) (p p' : Process env.lib)
      → AddsNone
      → archive_entry env cycle now entry p ≡ ok (tt, p')
      → length p'.work_list ≤ suc (length p.work_list)
  archive_entry-length (file name sb content) p p' c e =
      archive_file-length name sb content p p' c e
  archive_entry-length directory p p' c e = omega (arith, ap (λ q. length q.work_list) (ok-inj e).1)
  archive_entry-length unreadable p p' c e =
      omega (arith, ap (λ q. length q.work_list) (ok-inj e).1)
  archive_entry-length no_stat p p' c e = omega (arith, ap (λ q. length q.work_list) (ok-inj e).1)
  archive_entry-length symbolic_link p p' c e =
      omega (arith, ap (λ q. length q.work_list) (ok-inj e).1)

  wait_for_room-length :
      (fuel : ℕ) (p p' : Process env.lib)
      → wait_for_room env cycle now fuel p ≡ ok (tt, p')
      → length p'.work_list ≤ 20
  unfolding wait_for_room
  wait_for_room-length zero p p' e = cc
  wait_for_room-length (suc fuel) p p' e = elim (Bool-cases (ltb 20 (length p.work_list))) [
    | inl t ↦
        let again =
          ap (λ b. if b then (cycle >> wait_for_room env cycle now fuel) p else ok (tt, p)) (sym t)
          ∙ e in
        let (u, s, run, rest) =
          run_next-ok (cycle p) (λ _. wait_for_room env cycle now fuel) again in
        wait_for_room-length fuel s p' rest
    | inr f ↦
        let left =
          ap (λ b. if b then (cycle >> wait_for_room env cycle now fuel) p else ok (tt, p)) (sym f)
          ∙ e in
        omega (
          arith,
          not_ltb→le 20 (length p.work_list) f,
          ap (λ q. length q.work_list) (ok-inj left).1,
        )
  ]

  archive_it-length :
      (fuel : ℕ) (entry : Entry) (p p' : Process env.lib) (go_on : Bool)
      → AddsNone
      → archive_it env cycle now fuel entry p ≡ ok (go_on, p')
      → length p'.work_list ≤ 21
  unfolding archive_it
  archive_it-length fuel entry p p' go_on c e =
      let (u, s, run, rest) =
        run_next-ok (wait_for_room env cycle now fuel p)
          (λ _. archive_entry env cycle now entry >> (get >>= λ q. pure q.running)) e in
      let (u', s', run', rest') =
        run_next-ok (archive_entry env cycle now entry s) (λ _. get >>= λ q. pure q.running) rest in
      omega (
        arith,
        wait_for_room-length fuel p s run,
        archive_entry-length entry s s' c run',
        ap (λ q. length q.work_list) (ok-inj rest').1,
      )

  archive_all-length :
      (fuel : ℕ) (entries : List Entry) (p p' : Process env.lib)
      → AddsNone
      → length p.work_list ≤ 21
      → archive_all env cycle now fuel entries p ≡ ok (tt, p')
      → length p'.work_list ≤ 21
  unfolding archive_all
  archive_all-length fuel [] p p' c h e = omega (arith, ap (λ q. length q.work_list) (ok-inj e).1)
  archive_all-length fuel (entry ∷ entries) p p' c h e =
      let (go_on, s, run, rest) =
        run_next-ok (archive_it env cycle now fuel entry p)
          (λ go_on. if go_on then archive_all env cycle now fuel entries else pure tt) e in
      let step = archive_it-length fuel entry p s go_on c run in
      elim (Bool-cases go_on) [
        | inl t ↦ archive_all-length fuel entries s p' c step (
            ap (λ b. (if b then archive_all env cycle now fuel entries else pure tt) s) (sym t)
            ∙ rest)
        | inr f ↦
            let ended =
              ap (λ b. (if b then archive_all env cycle now fuel entries else pure tt) s) (sym f)
              ∙ rest in
            omega (arith, ap (λ q. length q.work_list) (ok-inj ended).1, step)
      ]

  -- If the event loop adds no tickets and the work list has at most 21 of them, then after a walk over
  -- any trees it has at most 21: a file is looked at only when there is room, and adds one.
  pub archive_trees-length :
      (fuel : ℕ) (trees : List (List Entry)) (p p' : Process env.lib)
      → AddsNone
      → length p.work_list ≤ 21
      → archive_trees env cycle now fuel trees p ≡ ok (tt, p')
      → length p'.work_list ≤ 21
  unfolding archive_trees
  archive_trees-length fuel [] p p' c h e = omega (arith, ap (λ q. length q.work_list) (ok-inj e).1)
  archive_trees-length fuel (tree ∷ trees) p p' c h e =
      let (u, s, run, rest) =
        run_next-ok (archive_all env cycle now fuel tree p)
          (λ _. archive_trees env cycle now fuel trees) e in
      archive_trees-length fuel trees s p' c (archive_all-length fuel tree p s c h run) rest
