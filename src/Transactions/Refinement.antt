-- ===== src/Transactions/Refinement.antt =====
-- store_transactions.py: the savepoints of a batch implement methods that are each done or not.
use parliament.Base.{
  ltb, leb, ◌==◌, if◌then◌else◌, Bool-cases, Error, Result, ok, err, ℕ, suc, ◌≤◌, max, ◌≡◌, refl,
  sym, ◌∙◌, inl, inr, true, false, List, ◌∷◌, arith, snapshot_too_large,
}
use parliament.Transactions.{
  Connection, Work, statements, method, both, caught, savepoint, rollback_to, release_to, leave,
  run_next, run_work, connected, disk_transaction, memory_transaction, database_transaction, batch,
  disk_backed_at_bytes,
}

same_name : (n : ℕ) → (n == n) ≡ true
same_name n = ground arith

module _ {D : Type 0} where
  -- The specification: work on the content alone, where a method that raises has not happened.
  abbrev pub undo : D → D × Result (Unit {0}) → D × Result (Unit {0})
  undo before (after, ok x) = (after, ok x)
  undo before (after, err e) = (before, err e)

  abbrev pub proceed : (D → D × Result (Unit {0})) → D × Result (Unit {0}) → D × Result (Unit {0})
  proceed f (d, ok x) = f d
  proceed f (d, err e) = (d, err e)

  unfoldable pub denote : Work D → D → D × Result (Unit {0})
  denote (statements f) d = f d
  denote (method w) d = undo d (denote w d)
  denote (both v w) d = proceed (denote w) (denote v d)
  denote (caught w) d = ((denote w d).0, ok tt)

  -- the work does to the content and returns what the specification says, and closes its savepoints
  Refines : Work D → Type 0
  Refines w =
      (c : Connection D)
      → ((run_work w c).0.content ≡ (denote w c.content).0)
        × ((run_work w c).0.savepoints ≡ c.savepoints)
        × ((run_work w c).1 ≡ (denote w c.content).1)

  leave-ok :
      (name : ℕ) (d0 : D) (rest : List (ℕ × D)) (c : Connection D) (r : Result (Unit {0})) (d : D)
      (s : Result (Unit {0}))
      → c.content ≡ d
      → c.savepoints ≡ (name, d0) ∷ rest
      → r ≡ s
      → ((leave name c r).0.content ≡ (undo d0 (d, s)).0)
        × ((leave name c r).0.savepoints ≡ rest)
        × ((leave name c r).1 ≡ (undo d0 (d, s)).1)
  unfolding leave release_to rollback_to
  leave-ok name d0 rest c r d (ok x) e q k = rw (k, q, same_name name) (e, refl, refl)
  leave-ok name d0 rest c r d (err x) e q k =
      rw (k, q, same_name name, same_name name) (refl, refl, refl)

  next-ok :
      (f : Connection D → Connection D × Result (Unit {0})) (g : D → D × Result (Unit {0}))
      (savepoints : List (ℕ × D)) (c : Connection D) (r : Result (Unit {0})) (d : D)
      (s : Result (Unit {0}))
      → ((x : Connection D)
          → ((f x).0.content ≡ (g x.content).0)
            × ((f x).0.savepoints ≡ x.savepoints)
            × ((f x).1 ≡ (g x.content).1))
      → c.content ≡ d
      → c.savepoints ≡ savepoints
      → r ≡ s
      → ((run_next f c r).0.content ≡ (proceed g (d, s)).0)
        × ((run_next f c r).0.savepoints ≡ savepoints)
        × ((run_next f c r).1 ≡ (proceed g (d, s)).1)
  unfolding run_next
  next-ok f g savepoints c r d (ok x) h e q k = rw (k, sym e, sym q) (h c)
  next-ok f g savepoints c r d (err x) h e q k = rw k (e, q, refl)

  run_work-Refines : (w : Work D) → Refines w
  unfolding Refines run_work denote
  run_work-Refines (statements f) c = (refl, refl, refl)
  run_work-Refines (method w) c =
      let (e, q, k) = run_work-Refines w (savepoint c) in
      unfold savepoint in
      leave-ok (suc c.counter) c.content c.savepoints (run_work w (savepoint c)).0
        (run_work w (savepoint c)).1 (denote w c.content).0 (denote w c.content).1 e q k
  run_work-Refines (both v w) c =
      let (e, q, k) = run_work-Refines v c in
      next-ok (run_work w) (denote w) c.savepoints (run_work v c).0 (run_work v c).1
        (denote v c.content).0 (denote v c.content).1 (run_work-Refines w) e q k
  run_work-Refines (caught w) c = let (e, q, k) = run_work-Refines w c in (e, q, refl)

  -- the specification of a transaction: all of the work, or none of it with the error
  abbrev pub commits : (D → ℕ) → ℕ → D → D × Result (Unit {0}) → D × Result (Unit {0})
  commits size max_snapshot_bytes file (d, ok x) =
      if leb disk_backed_at_bytes (size file)
      then (d, ok x)
      else if ltb max_snapshot_bytes (size d)
      then (file, err snapshot_too_large)
      else (d, ok x)
  commits size max_snapshot_bytes file (d, err e) = (file, err e)

  memory-commits :
      (size : D → ℕ) (max : ℕ) (file : D) (c : Connection D) (r : Result (Unit {0})) (d : D)
      (s : Result (Unit {0}))
      → leb disk_backed_at_bytes (size file) ≡ false
      → c.content ≡ d
      → r ≡ s
      → memory_transaction size max file (c, r) ≡ commits size max file (d, s)
  unfolding memory_transaction
  memory-commits size max file c r d (ok x) small e k = rw (k, e, small) refl
  memory-commits size max file c r d (err x) small e k = rw k refl

  disk-commits :
      (size : D → ℕ) (max : ℕ) (file : D) (c : Connection D) (r : Result (Unit {0})) (d : D)
      (s : Result (Unit {0}))
      → leb disk_backed_at_bytes (size file) ≡ true
      → c.content ≡ d
      → r ≡ s
      → disk_transaction file (c, r) ≡ commits size max file (d, s)
  unfolding disk_transaction
  disk-commits size max file c r d (ok x) large e k = rw (k, e, large) refl
  disk-commits size max file c r d (err x) large e k = rw k refl

  -- A batch over a file that can be read commits all that its calls did, each method wholly or not at
  -- all, or leaves the file with the error: that of the work, or the size limit of a snapshot.
  pub batch-commits :
      (size : D → ℕ) (max_snapshot_bytes : ℕ) (w : Work D) (file : D)
      → size file ≤ max_snapshot_bytes
      → batch size max_snapshot_bytes false w file
        ≡ commits size max_snapshot_bytes file (denote w file)
  unfolding batch database_transaction Refines
  batch-commits size max w file small =
      let (e, q, k) = run_work-Refines w (connected file) in
      elim (Bool-cases (leb disk_backed_at_bytes (size file))) [
        | inl large ↦ rw large (
            disk-commits size max file (run_work w (connected file)).0
              (run_work w (connected file)).1 (denote w file).0 (denote w file).1 large e k)
        | inr fits ↦
            let readable : ltb max (size file) ≡ false = ground (arith, small) in
            rw (fits, readable)
              (memory-commits size max file (run_work w (connected file)).0
                (run_work w (connected file)).1 (denote w file).0 (denote w file).1 fits e k)
      ]

  -- A method that raises inside a batch leaves what the batch had done before it, and the batch's
  -- savepoints as they were; the exception reaches the caller.
  pub method-undone :
      (w : Work D) (c : Connection D) (problem : Error)
      → (denote w c.content).1 ≡ err problem
      → ((run_work (method w) c).0.content ≡ c.content)
        × ((run_work (method w) c).0.savepoints ≡ c.savepoints)
        × ((run_work (method w) c).1 ≡ err problem)
  unfolding Refines denote
  method-undone w c problem h =
      let (e, q, k) = run_work-Refines (method w) c in
      let u = undone (denote w c.content) h in (e ∙ u.0, q, k ∙ u.1)
    where
      undone :
          (x : D × Result (Unit {0}))
          → x.1 ≡ err problem
          → ((undo c.content x).0 ≡ c.content) × ((undo c.content x).1 ≡ err problem)
      undone (d, ok t) h = absurd (let h' = h in cc)
      undone (d, err p) h = (refl, h)
