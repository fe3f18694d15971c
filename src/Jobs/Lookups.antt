-- ===== src/Jobs/Lookups.antt =====
-- store.py, GraphStore._read_job: which row an id finds, before and after a write.
use parliament.Base.{
  ◌∙◌, Bool-cases, str_eq_refl, ||-eq-false, str_eq_comm, All, All-map, String, ◌≡◌, refl, inl, inr,
  false, some, [], ◌∷◌, str_eq, str_eq_iff, All-and,
}
use parliament.Job.{Job}
use parliament.Jobs.{Jobs, read_job}
use parliament.Jobs.Rows.{Unique, has_id, rewrite}

pub All-absent :
    (x : String) (js : Jobs) → has_id x js ≡ false → All (λ j. str_eq j.id x ≡ false) js
All-absent x [] h = tt
All-absent x (j ∷ js) h =
    let apart = ||-eq-false (str_eq j.id x) (has_id x js) h in (apart.0, All-absent x js apart.1)

read_job-skip :
    (k j : Job) (ks : Jobs)
    → (str_eq j.id k.id ≡ false) × (read_job j.id ks ≡ some j)
    → read_job j.id (k ∷ ks) ≡ some j
unfolding read_job
read_job-skip k j ks (ne, found) = rw (str_eq_comm k.id j.id, ne) found

-- Under unique ids every row is the one that its id finds.
pub rows_found : (table : Jobs) → Unique table → All (λ j. read_job j.id table ≡ some j) table
unfolding read_job
rows_found [] u = tt
rows_found (k ∷ ks) u = (
  rw (str_eq_refl k.id) refl,
  All-map _ _ ks (λ j. read_job-skip k j ks)
      (All-and _ _ ks (All-absent k.id ks u.0) (rows_found ks u.1)),
)

pub read_job-rewrite_ne :
    (x id : String) (j : Job) (table : Jobs)
    → j.id ≡ id
    → str_eq x id ≡ false
    → read_job x (rewrite id j table) ≡ read_job x table
unfolding read_job
read_job-rewrite_ne x id j [] e ne = refl
read_job-rewrite_ne x id j (k ∷ ks) e ne = elim (Bool-cases (str_eq k.id id)) [
  | inl same ↦
      let ke = (str_eq_iff k.id id).0 same in
      rw (same, read_job-rewrite_ne x id j ks e ne, e, ke, str_eq_comm id x, ne)
  | inr other ↦ rw (other, read_job-rewrite_ne x id j ks e ne)
]

pub read_job-rewrite_self :
    (id : String) (j k : Job) (table : Jobs)
    → j.id ≡ id
    → read_job id table ≡ some k
    → read_job id (rewrite id j table) ≡ some j
unfolding read_job
read_job-rewrite_self id j k [] e h = cc
read_job-rewrite_self id j k (l ∷ ls) e h = elim (Bool-cases (str_eq l.id id)) [
  | inl same ↦ rw (same, (str_eq_iff j.id id).1 e) refl
  | inr other ↦ rw (other, other) (read_job-rewrite_self id j k ls e (rw other at h))
]

-- the jobs of a list stand in the table unchanged
abbrev pub Stands : Jobs → Jobs → Type 0
Stands table js = All (λ j. read_job j.id table ≡ some j) js

pub Stands-rewrite :
    (id : String) (j : Job) (table js : Jobs)
    → j.id ≡ id
    → has_id id js ≡ false
    → Stands table js
    → Stands (rewrite id j table) js
Stands-rewrite id j table [] e h a = tt
Stands-rewrite id j table (k ∷ ks) e h a =
    let (here, later) = ||-eq-false (str_eq k.id id) (has_id id ks) h in
    (read_job-rewrite_ne k.id id j table e here ∙ a.0, Stands-rewrite id j table ks e later a.1)
