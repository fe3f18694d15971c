-- ===== src/Transactions/Samples.antt =====
-- A batch in which one call fails, and the theorems at it.
use parliament.Base.{ok, err, ℕ, ◌+◌, ◌≡◌, refl, false, arith, stale_lease}
use parliament.Transactions.{
  Work, statements, method, both, caught, savepoint, rollback_to, release_to, leave, run_next,
  run_work, disk_transaction, memory_transaction, database_transaction, batch,
}
use parliament.Transactions.Refinement.{denote, commits, batch-commits}

-- a call that writes and then raises, and one that writes
abbrev failing : Work ℕ
failing = statements (λ d. (d + 5, err stale_lease))

abbrev adding : Work ℕ
adding = statements (λ d. (d + 1, ok tt))

abbrev calls : Work ℕ
calls = both (method adding) (both (caught (method failing)) (method adding))

abbrev size : ℕ → ℕ
size d = d

batch_run : batch size 100 false calls 10 ≡ (12, ok tt)
unfolding batch database_transaction run_work savepoint leave run_next release_to rollback_to
    memory_transaction disk_transaction
batch_run = refl

batch-commits_example : batch size 100 false calls 10 ≡ commits size 100 10 (denote calls 10)
batch-commits_example = batch-commits size 100 calls 10 (omega arith)
