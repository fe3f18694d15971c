-- ===== src/Jobs/Sorting.antt =====
-- store.py, `sorted(jobs, key=job_priority)` and the filters before and after it.
use parliament.Base.{
  Bool-cases, ||-eq-false, str_eq_comm, take, select, All, All-map, ℕ, zero, suc, String, ◌≡◌, refl,
  inl, inr, Bool, true, false, [], ◌∷◌, arith, str_eq,
}
use parliament.Jobs.{
  Jobs, insert_job, sort_jobs, runnable_jobs, Job, key_lt, runnable, job_priority,
}
use parliament.Job.Priority.{key_lt_asymm, key_le_trans}
use parliament.Jobs.Rows.{Unique, has_id}

pub All-select : (P : Job → Type 0) (p : Job → Bool) (js : Jobs) → All P js → All P (select p js)
All-select P p [] a = tt
All-select P p (j ∷ js) a = elim (Bool-cases (p j)) [
  | inl yes' ↦ rw yes' (a.0, All-select P p js a.1)
  | inr no' ↦ rw no' (All-select P p js a.1)
]

-- what a filter keeps passes its test
pub All-select_test : (p : Job → Bool) (js : Jobs) → All (λ j. p j ≡ true) (select p js)
All-select_test p [] = tt
All-select_test p (j ∷ js) = elim (Bool-cases (p j)) [
  | inl yes' ↦ rw yes' (yes', All-select_test p js)
  | inr no' ↦ rw no' (All-select_test p js)
]

All-insert_job : (P : Job → Type 0) (j : Job) (js : Jobs) → P j → All P js → All P (insert_job j js)
unfolding insert_job
All-insert_job P j [] p a = (p, tt)
All-insert_job P j (k ∷ ks) p a = elim (Bool-cases (key_lt (job_priority k) (job_priority j))) [
  | inl later ↦ rw later (a.0, All-insert_job P j ks p a.1)
  | inr now ↦ rw now (p, a)
]

pub All-sort_jobs : (P : Job → Type 0) (js : Jobs) → All P js → All P (sort_jobs js)
unfolding sort_jobs
All-sort_jobs P [] a = tt
All-sort_jobs P (j ∷ js) a = All-insert_job P j (sort_jobs js) a.0 (All-sort_jobs P js a.1)

pub All-take : (P : Job → Type 0) (n : ℕ) (js : Jobs) → All P js → All P (take n js)
All-take P zero js a = tt
All-take P (suc n) [] a = tt
All-take P (suc n) (j ∷ js) a = (a.0, All-take P n js a.1)

has_id-select :
    (x : String) (p : Job → Bool) (js : Jobs) → has_id x js ≡ false → has_id x (select p js) ≡ false
has_id-select x p [] h = refl
has_id-select x p (j ∷ js) h = ground (arith, has_id-select x p js)

Unique-select : (p : Job → Bool) (js : Jobs) → Unique js → Unique (select p js)
Unique-select p [] u = tt
Unique-select p (j ∷ js) u = elim (Bool-cases (p j)) [
  | inl yes' ↦ rw yes' (has_id-select j.id p js u.0, Unique-select p js u.1)
  | inr no' ↦ rw no' (Unique-select p js u.1)
]

has_id-insert_job :
    (x : String) (j : Job) (js : Jobs) → has_id x (insert_job j js) ≡ has_id x (j ∷ js)
unfolding insert_job
has_id-insert_job x j [] = refl
has_id-insert_job x j (k ∷ ks) = ground (arith, has_id-insert_job x j ks)

pub has_id-sort_jobs : (x : String) (js : Jobs) → has_id x (sort_jobs js) ≡ has_id x js
unfolding sort_jobs
has_id-sort_jobs x [] = refl
has_id-sort_jobs x (j ∷ js) = rw (has_id-insert_job x j (sort_jobs js), has_id-sort_jobs x js)

Unique-insert_job :
    (j : Job) (js : Jobs) → has_id j.id js ≡ false → Unique js → Unique (insert_job j js)
unfolding insert_job
Unique-insert_job j [] h u = (refl, tt)
Unique-insert_job j (k ∷ ks) h u = elim (Bool-cases (key_lt (job_priority k) (job_priority j))) [
  | inl later ↦
      let apart = ||-eq-false (str_eq k.id j.id) (has_id j.id ks) h in
      rw later (
        rw (has_id-insert_job k.id j ks) (rw (str_eq_comm j.id k.id, apart.0) u.0),
        Unique-insert_job j ks apart.1 u.1,
      )
  | inr now ↦ rw now (h, u)
]

Unique-sort_jobs : (js : Jobs) → Unique js → Unique (sort_jobs js)
unfolding sort_jobs
Unique-sort_jobs [] u = tt
Unique-sort_jobs (j ∷ js) u =
    Unique-insert_job j (sort_jobs js) (rw (has_id-sort_jobs j.id js) u.0) (Unique-sort_jobs js u.1)

-- The candidates of a claim have unique ids, like the table.
pub Unique-candidates : (table : Jobs) → Unique table → Unique (sort_jobs (runnable_jobs table))
unfolding runnable_jobs
Unique-candidates table u = Unique-sort_jobs _ (Unique-select (λ j. runnable j.state) table u)

-- Every candidate satisfies what every row does, and is runnable.
pub All-candidates :
    (P : Job → Type 0) (table : Jobs) → All P table → All P (sort_jobs (runnable_jobs table))
unfolding runnable_jobs
All-candidates P table a = All-sort_jobs P _ (All-select P (λ j. runnable j.state) table a)

-- No later job of the list has a smaller key.
abbrev pub InOrder : Jobs → Type 0
InOrder [] = Unit
InOrder (j ∷ js) = All (λ k. key_lt (job_priority k) (job_priority j) ≡ false) js × InOrder js

All-after :
    (j k : Job) (ks : Jobs)
    → key_lt (job_priority k) (job_priority j) ≡ false
    → All (λ l. key_lt (job_priority l) (job_priority k) ≡ false) ks
    → All (λ l. key_lt (job_priority l) (job_priority j) ≡ false) ks
All-after j k ks h a =
    All-map _ _ ks (λ l e. key_le_trans (job_priority j) (job_priority k) (job_priority l) h e) a

InOrder-insert_job : (j : Job) (js : Jobs) → InOrder js → InOrder (insert_job j js)
unfolding insert_job
InOrder-insert_job j [] o = (tt, tt)
InOrder-insert_job j (k ∷ ks) o = elim (Bool-cases (key_lt (job_priority k) (job_priority j))) [
  | inl later ↦ rw later (
    All-insert_job _ j ks (key_lt_asymm (job_priority k) (job_priority j) later) o.0,
    InOrder-insert_job j ks o.1,
  )
  | inr now ↦ rw now ((now, All-after j k ks now o.0), o)
]

pub InOrder-sort_jobs : (js : Jobs) → InOrder (sort_jobs js)
unfolding sort_jobs
InOrder-sort_jobs [] = tt
InOrder-sort_jobs (j ∷ js) = InOrder-insert_job j (sort_jobs js) (InOrder-sort_jobs js)

pub InOrder-select : (p : Job → Bool) (js : Jobs) → InOrder js → InOrder (select p js)
InOrder-select p [] o = tt
InOrder-select p (j ∷ js) o = elim (Bool-cases (p j)) [
  | inl yes' ↦ rw yes' (All-select _ p js o.0, InOrder-select p js o.1)
  | inr no' ↦ rw no' (InOrder-select p js o.1)
]

pub InOrder-take : (n : ℕ) (js : Jobs) → InOrder js → InOrder (take n js)
InOrder-take zero js o = tt
InOrder-take (suc n) [] o = tt
InOrder-take (suc n) (j ∷ js) o = (All-take _ n js o.0, InOrder-take n js o.1)
