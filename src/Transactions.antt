-- ===== src/Transactions.antt =====
-- worker/src/parliament_worker/graphrag/store_transactions.py and GraphStore._transaction and batch
-- of store.py: the transactions that the store's operations run in. `D` is the content of the
-- database and `size` the length of its file. A piece of work may write and then raise; Python leaves
-- the writes, and the savepoints and rollbacks take them back. SAVEPOINT, ROLLBACK TO and RELEASE
-- stand for SQLite's statements; the lock makes the write transactions a sequence.
pub mod Refinement
mod Samples
use parliament.Base.{
  ltb, leb, ◌==◌, if◌then◌else◌, ltb→lt, lt→ltb, leb→le, le→leb, Bool-cases, Option-cases,
  str_eq_refl, opt_eq, opt_eq_sound, &&-eq-true, ||-eq-false, &&-false, some-eq, ok-injective,
  str_eq_comm, length, take, select, any, find, is_nil, All, length-append, length-take-le,
  All-append, All-map, Error, Result, ok, err, ◌>>=◌, ◌>>◌, require, >>=-eq-ok, >>-eq-ok,
  require-eq-ok, ℕ, zero, suc, ◌+◌, ◌-◌, ◌*◌, ◌≤◌, ◌<◌, min, max, String, ◌≡◌, refl, sym, ap, ◌∙◌,
  subst, ◌≢◌, ◌↔◌, ◌⊎◌, inl, inr, Bool, true, false, ◌&&◌, ◌||◌, not, Option, none, some, List, [],
  ◌∷◌, ◌++◌, map, arith, str_eq, str_eq_iff, snapshot_too_large, nested_batch,
}

-- DISK_BACKED_AT_BYTES
abbrev pub disk_backed_at_bytes : ℕ
disk_backed_at_bytes = 900000000

-- a connection: what it reads, the open savepoints by their number, the innermost first, and the
-- counter of BatchState that names them
pub record Connection (D : Type 0) : Type 0 where
  pub content : D
  pub savepoints : List (ℕ × D)
  pub counter : ℕ

-- What a caller does inside a batch: statements that may raise after some writes, a store method
-- (a nested transaction), one thing after another, and a caller that catches an exception.
pub data Work (D : Type 0) : Type 0 where
  statements : (D → D × Result (Unit {0})) → Work D
  method : Work D → Work D
  both : Work D → Work D → Work D
  caught : Work D → Work D

module _ {D : Type 0} where
  -- SAVEPOINT graph_batch_{counter}
  pub savepoint : Connection D → Connection D
  savepoint c = record c {
    counter = suc c.counter;
    savepoints = (suc c.counter, c.content) ∷ c.savepoints;
  }

  -- ROLLBACK TO SAVEPOINT: the content of the savepoint, which stays open; newer ones are dropped
  pub rollback_to : ℕ → List (ℕ × D) → Connection D → Connection D
  rollback_to name [] c = c
  rollback_to name ((n, d) ∷ rest) c =
      let outer = rollback_to name rest c in
      if n == name then record c { content = d; savepoints = (n, d) ∷ rest } else outer

  -- RELEASE SAVEPOINT: it and the newer ones are closed
  pub release_to : ℕ → List (ℕ × D) → Connection D → Connection D
  release_to name [] c = c
  release_to name ((n, d) ∷ rest) c =
      let outer = release_to name rest c in
      if n == name then record c { savepoints = rest } else outer

  -- the end of BatchState.nested, after the body of a method
  pub leave : ℕ → Connection D → Result (Unit {0}) → Connection D × Result (Unit {0})
  unfolding rollback_to release_to
  leave name c (ok x) = (release_to name c.savepoints c, ok x)
  leave name c (err e) =
      let back = rollback_to name c.savepoints c in (release_to name back.savepoints back, err e)

  pub run_next :
      (Connection D → Connection D × Result (Unit {0}))
      → Connection D
      → Result (Unit {0})
      → Connection D × Result (Unit {0})
  run_next f c (ok x) = f c
  run_next f c (err e) = (c, err e)

  -- the work on a connection; a method is BatchState.nested with write=True
  pub run_work : Work D → Connection D → Connection D × Result (Unit {0})
  unfolding savepoint leave run_next
  run_work (statements f) c = let (d, r) = f c.content in (record c { content = d }, r)
  run_work (method w) c =
      let opened = savepoint c in let (c', r) = run_work w opened in leave opened.counter c' r
  run_work (both v w) c = let (c', r) = run_work v c in run_next (run_work w) c' r
  run_work (caught w) c = let (c', r) = run_work w c in (c', ok tt)

  -- a connection that a transaction opens
  abbrev pub connected : D → Connection D
  connected d = record { content = d; savepoints = []; counter = 0 }

  -- `_disk_transaction`: commit, or roll back and raise
  pub disk_transaction : D → Connection D × Result (Unit {0}) → D × Result (Unit {0})
  disk_transaction file (c, ok x) = (c.content, ok x)
  disk_transaction file (c, err e) = (file, err e)

  module _ (size : D → ℕ) (max_snapshot_bytes : ℕ) where
    -- `_memory_transaction`: the file is replaced at the end, if it is not too large
    pub memory_transaction : D → Connection D × Result (Unit {0}) → D × Result (Unit {0})
    memory_transaction file (c, ok x) =
        if ltb max_snapshot_bytes (size c.content)
        then (file, err snapshot_too_large)
        else (c.content, ok x)
    memory_transaction file (c, err e) = (file, err e)

    -- database_transaction with write=True around a body, and `private_read` of a small file
    pub database_transaction : Work D → D → D × Result (Unit {0})
    unfolding run_work disk_transaction memory_transaction
    database_transaction w file =
        if leb disk_backed_at_bytes (size file)
        then disk_transaction file (run_work w (connected file))
        else if ltb max_snapshot_bytes (size file)
        then (file, err snapshot_too_large)
        else memory_transaction file (run_work w (connected file))

    -- GraphStore.batch: one transaction around the calls, refused inside another batch
    pub batch : Bool → Work D → D → D × Result (Unit {0})
    unfolding database_transaction
    batch active w file = if active then (file, err nested_batch) else database_transaction w file
