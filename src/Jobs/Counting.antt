-- ===== src/Jobs/Counting.antt =====
-- store.py: how many rows of the table pass a test, under a write, the filters and the sort.
use parliament.Base.{
  Bool-cases, some-eq, ◌+◌, String, ◌≡◌, refl, ap, ◌∙◌, subst, inl, inr, Bool, false, some, [], ◌∷◌,
  arith, str_eq, str_eq_iff, length, select, one_if, count_where,
}
use parliament.Job.{Job, key_lt, job_priority, runnable}
use parliament.Jobs.{Jobs, read_job, insert_job, sort_jobs, runnable_jobs}
use parliament.Jobs.Rows.{Unique, rewrite, has_id, rewrite-absent}

-- one row is exchanged, and the count changes by what it held and holds
pub count_where-rewrite :
    (p : Job → Bool) (id : String) (j j' : Job) (table : Jobs)
    → Unique table
    → read_job id table ≡ some j
    → count_where p (rewrite id j' table) + one_if (p j) ≡ count_where p table + one_if (p j')
unfolding read_job
count_where-rewrite p id j j' [] u h = cc
count_where-rewrite p id j j' (k ∷ ks) u h = elim (Bool-cases (str_eq k.id id)) [
  | inl same ↦
      let e : k ≡ j = some-eq (rw same at h) in
      let a = subst (λ (s : String). has_id s ks ≡ false) ((str_eq_iff k.id id).0 same) u.0 in
      let held = one_if (p j') in
      let c = ap (count_where p) (rewrite-absent id j' ks a) in
      let d : one_if (p k) ≡ one_if (p j) = ap (λ (x : Job). one_if (p x)) e in
      rw same (omega (arith, c, d))
  | inr other ↦
      let ih = count_where-rewrite p id j j' ks u.1 (rw other at h) in rw other (omega (arith, ih))
]

pub length-select : (p : Job → Bool) (table : Jobs) → length (select p table) ≡ count_where p table
length-select p [] = refl
length-select p (j ∷ js) = elim (Bool-cases (p j)) [
  | inl here ↦ let ih = length-select p js in rw here (omega (arith, ih))
  | inr other ↦ let ih = length-select p js in rw other (omega (arith, ih))
]

count_where-insert_job :
    (p : Job → Bool) (j : Job) (js : Jobs)
    → count_where p (insert_job j js) ≡ one_if (p j) + count_where p js
unfolding insert_job
count_where-insert_job p j [] = refl
count_where-insert_job p j (k ∷ ks) = elim (Bool-cases (key_lt (job_priority k) (job_priority j))) [
  | inl later ↦ let ih = count_where-insert_job p j ks in rw later (omega (arith, ih))
  | inr now ↦ rw now refl
]

count_where-sort_jobs :
    (p : Job → Bool) (js : Jobs) → count_where p (sort_jobs js) ≡ count_where p js
unfolding sort_jobs
count_where-sort_jobs p [] = refl
count_where-sort_jobs p (j ∷ js) =
    count_where-insert_job p j (sort_jobs js)
    ∙ ap (λ n. one_if (p j) + n) (count_where-sort_jobs p js)

-- A filter by a weaker test drops no job that counts.
count_where-select :
    (p q : Job → Bool) (js : Jobs)
    → ((j : Job) → q j ≡ false → p j ≡ false)
    → count_where p (select q js) ≡ count_where p js
count_where-select p q [] h = refl
count_where-select p q (j ∷ js) h = elim (Bool-cases (q j)) [
  | inl here ↦ let ih = count_where-select p q js h in rw here (ap (λ n. one_if (p j) + n) ih)
  | inr other ↦ let ih = count_where-select p q js h in rw (other, h j other) (omega (arith, ih))
]

-- The candidates of a claim hold every job of the table that counts, if those are runnable.
pub count_where-candidates :
    (p : Job → Bool) (table : Jobs)
    → ((j : Job) → runnable j.state ≡ false → p j ≡ false)
    → count_where p (sort_jobs (runnable_jobs table)) ≡ count_where p table
unfolding runnable_jobs
count_where-candidates p table h =
    count_where-sort_jobs p (select (λ j. runnable j.state) table)
    ∙ count_where-select p (λ j. runnable j.state) table h
