-- ===== src/Jobs/Pending.antt =====
-- store.py, GraphStore.pending: which jobs are shown, in which order.
use parliament.Base.{
  ◌++◌, ◌⊎◌, if◌then◌else◌, Bool-cases, length, take, select, All, length-take-le, ok, require,
  >>-eq-ok, ℕ, zero, suc, ◌≤◌, ◌≡◌, refl, ap, subst, inl, inr, Bool, true, false, Option, [], ◌∷◌,
  ok-injective, ◌⊎◌,
}
use mathlib.Core.List.{Perm}
use mathlib.Core.List.Perm
use parliament.Value.{Reading, store_clock}
use parliament.Job.{Job, due, runnable, key_lt, job_priority}
use parliament.Jobs.{Jobs, pending, sort_jobs, insert_job, runnable_jobs, limit_valid}
use parliament.Jobs.Sorting.{InOrder, InOrder-sort_jobs, InOrder-select, All-select_test, All-take}

select-insert_job-perm :
    (p : Job → Bool) (j : Job) (js : Jobs) → Perm (select p (insert_job j js)) (select p (j ∷ js))
unfolding insert_job
select-insert_job-perm p j [] = Perm.refl _
select-insert_job-perm p j (k ∷ ks) = elim (Bool-cases (key_lt (job_priority k) (job_priority j))) [
  | inl later ↦ rw later (select-swap p j k ks (insert_job j ks) (select-insert_job-perm p j ks))
  | inr now ↦ rw now (Perm.refl _)
]
  where
    select-swap :
        (p : Job → Bool) (j k : Job) (ks sorted : Jobs)
        → Perm (select p sorted) (select p (j ∷ ks))
        → Perm (select p (k ∷ sorted)) (select p (j ∷ k ∷ ks))
    select-swap p j k ks sorted h = elim (Bool-cases (p k)) [
      | inl has ↦ elim (Bool-cases (p j)) [
        | inl had ↦
            rw (has, had) (Perm.trans (Perm.cons k (rw had at h)) (Perm.swap j k (select p ks)))
        | inr not' ↦ rw (has, not') (Perm.cons k (rw not' at h))
      ]
      | inr not' ↦ rw not' h
    ]

select-sort_jobs-perm : (p : Job → Bool) (js : Jobs) → Perm (select p (sort_jobs js)) (select p js)
unfolding sort_jobs
select-sort_jobs-perm p [] = Perm.refl _
select-sort_jobs-perm p (j ∷ js) =
    Perm.trans (select-insert_job-perm p j (sort_jobs js))
      (select-cons p j (sort_jobs js) js (select-sort_jobs-perm p js))
  where
    select-cons :
        (p : Job → Bool) (j : Job) (xs ys : Jobs)
        → Perm (select p xs) (select p ys)
        → Perm (select p (j ∷ xs)) (select p (j ∷ ys))
    select-cons p j xs ys h = elim (Bool-cases (p j)) [
      | inl has ↦ rw has (Perm.cons j h)
      | inr not' ↦ rw not' h
    ]

-- Every due job is runnable, so the filter by state loses none.
select-runnable :
    (now : ℕ) (js : Jobs)
    → select (λ j. due j now) (select (λ j. runnable j.state) js) ≡ select (λ j. due j now) js
select-runnable now [] = refl
select-runnable now (j ∷ js) = elim (Bool-cases (runnable j.state)) [
  | inl live ↦ rw live (ap (λ r. if due j now then j ∷ r else r) (select-runnable now js))
  | inr dead ↦ rw (dead, not_due j now dead) (select-runnable now js)
]
  where
    not_due : (j : Job) (now : ℕ) → runnable j.state ≡ false → due j now ≡ false
    not_due j now dead = unfold due in rw dead refl

-- a list cut after a number of jobs: its jobs are those in front, and there are more of them only
-- where the cut came after that many
record Cut (n : ℕ) (xs : Jobs) : Type 0 where
  rest : Jobs
  joined : take n xs ++ rest ≡ xs
  full : (rest ≡ []) ⊎ (length (take n xs) ≡ n)

cut : (n : ℕ) (xs : Jobs) → Cut n xs
cut zero xs = record { rest = xs; joined = refl; full = inr refl }
cut (suc n) [] = record { rest = []; joined = refl; full = inl refl }
cut (suc n) (x ∷ xs) =
    let c = cut n xs in record { rest = c.rest; joined = ap (◌∷◌ x) c.joined; full = longer c.full }
  where
    longer :
        {rest : Jobs}
        → (rest ≡ []) ⊎ (length (take n xs) ≡ n)
        → (rest ≡ []) ⊎ (length (x ∷ take n xs) ≡ suc n)
    longer (inl e) = inl e
    longer (inr e) = inr (ap suc e)

-- What `pending` shows at an instant: due jobs only, at most `limit`. With the jobs of `rest` behind
-- them they are the due jobs of the table, each as often as it stands there, and in the order of the
-- sort keys, so the jobs shown are the first ones; and where any are left the limit is reached.
pub record Shows (instant limit : ℕ) (table js : Jobs) : Type 0 where
  pub due_now : All (λ j. due j instant ≡ true) js
  pub within : length js ≤ limit
  pub rest : Jobs
  pub joined : Perm (js ++ rest) (select (λ j. due j instant) table)
  pub ordered : InOrder (js ++ rest)
  pub full : (rest ≡ []) ⊎ (length js ≡ limit)

shown :
    (instant limit : ℕ) (table : Jobs)
    → Shows instant limit table
        (take limit (select (λ j. due j instant) (sort_jobs (runnable_jobs table))))
unfolding runnable_jobs
shown instant limit table =
    let p = λ (j : Job). due j instant in
    let found = select p (sort_jobs (select (λ j. runnable j.state) table)) in
    let c = cut limit found in
    record {
      due_now = All-take _ limit found (All-select_test p _);
      within = length-take-le limit found;
      rest = c.rest;
      joined = rw c.joined (
          rw (select-runnable instant table) at
            (select-sort_jobs-perm p (select (λ j. runnable j.state) table)));
      ordered = rw c.joined (InOrder-select p _ (InOrder-sort_jobs _));
      full = c.full;
    }

-- `pending` with a limit shows the first due jobs of the table in the order of their sort keys, each
-- as often as it stands there: at most as many as the limit, and fewer only if there are no more.
pub pending-Shows :
    (time limit : ℕ) (now : Option Reading) (table js : Jobs) (t : ℕ)
    → store_clock time now ≡ ok t
    → pending time limit now table ≡ ok js
    → Shows t limit table js
unfolding pending
pending-Shows time limit now table js t clock h =
    let (_, h1) = >>-eq-ok (require (limit_valid limit) _) _ h in
    subst (Shows t limit table) (ok-injective (rw clock at h1)) (shown t limit table)
