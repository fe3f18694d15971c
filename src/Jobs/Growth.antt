-- ===== src/Jobs/Growth.antt =====
-- store.py and store_bulk.py: enqueuing, updating and retiring keep every row of the table, in a later
-- revision, with unique ids.
use parliament.Base.{
  leb, Bool-cases, Option-cases, ||-eq-false, str_eq_comm, All-append, ok, require, >>=-eq-ok,
  >>-eq-ok, ℕ, ◌+◌, String, ◌≡◌, refl, sym, ap, ◌∙◌, subst, inl, inr, false, ◌||◌, not, Option,
  none, some, List, [], ◌∷◌, ◌++◌, arith, str_eq, ok-injective, job_replay_conflict,
}
use parliament.Value.{Value, Fields}
use parliament.Job.{Job, planned, Changes, updated_job, leased, same_state, obsolete}
use parliament.Job.Succession.{IsWellFormed, updated_job-Succeeds, updated_job-IsWellFormed}
use parliament.Jobs.{
  Jobs, read_job, write_job, new_job, enqueue_row, enqueue, update_job, require_job, retire_job,
  retire_jobs, obsoleted, max_job_bytes,
}
use parliament.Jobs.Rows.{
  Unique, has_id, write_job-Advances, Advances, Advances-refl, Advances-trans, Evolves-append,
}
use parliament.Jobs.Queue.{enqueue-Enqueued}

has_id-read_none : (id : String) (table : Jobs) → read_job id table ≡ none → has_id id table ≡ false
unfolding read_job
has_id-read_none id [] h = refl
has_id-read_none id (k ∷ ks) h = ground (arith, has_id-read_none id ks)

has_id-append : (x : String) (a b : Jobs) → has_id x (a ++ b) ≡ (has_id x a || has_id x b)
has_id-append x [] b = refl
has_id-append x (k ∷ ks) b = ground (arith, has_id-append x ks b)

Unique-snoc :
    (table : Jobs) (j : Job) → has_id j.id table ≡ false → Unique table → Unique (table ++ j ∷ [])
Unique-snoc [] j h u = (refl, tt)
Unique-snoc (k ∷ ks) j h u =
    let apart = ||-eq-false (str_eq k.id j.id) (has_id j.id ks) h in
    (
      rw (has_id-append k.id ks (j ∷ []), u.0, str_eq_comm j.id k.id, apart.0) refl,
      Unique-snoc ks j apart.1 u.1,
    )

snoc-Advances :
    (table : Jobs) (j : Job)
    → read_job j.id table ≡ none
    → IsWellFormed j
    → Advances table (table ++ j ∷ [])
snoc-Advances table j fresh w = record {
  evolves = λ _. Evolves-append table (j ∷ []);
  unique = Unique-snoc table j (has_id-read_none j.id table fresh);
  well_formed = λ a. All-append IsWellFormed table (j ∷ []) a (w, tt);
}

planned-IsWellFormed : (j : Job) → j.state ≡ planned → IsWellFormed j
planned-IsWellFormed j e = record {
  addressed = λ h. absurd (let h' = sym e ∙ h in cc);
  resulted = λ h. absurd (let h' = sym e ∙ h in cc);
}

enqueue_row-Advances :
    (json_bytes : Job → ℕ) (j : Job) (table : Jobs) (id : String) (table' : Jobs)
    → j.state ≡ planned
    → enqueue_row json_bytes (read_job j.id table) j table ≡ ok (id, table')
    → Advances table table'
unfolding enqueue_row
enqueue_row-Advances json_bytes j table id table' new h =
    elim (Option-cases (read_job j.id table)) [
      | inl fresh ↦
          let (_, e) = >>-eq-ok (require (leb (json_bytes j) max_job_bytes) _) _ (rw fresh at h) in
          subst (Advances table) (ap (λ (x : String × Jobs). x.1) (ok-injective e))
            (snoc-Advances table j fresh (planned-IsWellFormed j new))
      | inr (prior, found) ↦
          let (_, e) = >>-eq-ok (require _ job_replay_conflict) _ (rw found at h) in
          subst (Advances table) (ap (λ (x : String × Jobs). x.1) (ok-injective e))
            (Advances-refl table)
    ]

pub enqueue-Advances :
    (json_bytes : Job → ℕ) (digest : String → String → String) (time : ℕ) (kind key : String)
    (request : Value) (context : Fields) (table : Jobs) (id : String) (table' : Jobs)
    → enqueue json_bytes digest time kind key request context table ≡ ok (id, table')
    → Advances table table'
enqueue-Advances json_bytes digest time kind key request context table id table' h =
    enqueue_row-Advances json_bytes (new_job (digest kind key) kind key request context time) table
      id table' refl
      (enqueue-Enqueued json_bytes digest time kind key request context table id table' h).inserted

pub require_job-eq-ok : (o : Option Job) (j : Job) → require_job o ≡ ok j → o ≡ some j
unfolding require_job
require_job-eq-ok none j h = cc
require_job-eq-ok (some k) j h = ap some (ok-injective h)

-- reading, updating and writing a job under its own id
rewritten-Advances :
    (json_bytes : Job → ℕ) (time : ℕ) (id : String) (c : Changes) (j j' : Job) (table table' : Jobs)
    → read_job id table ≡ some j
    → updated_job j c time ≡ ok j'
    → write_job json_bytes id j' table ≡ ok table'
    → Advances table table'
rewritten-Advances json_bytes time id c j j' table table' found u w =
    write_job-Advances json_bytes id j j' table table' found (updated_job-Succeeds j c time j' u)
      (λ _. updated_job-IsWellFormed j c time j' u) w

pub update_job-Advances :
    (json_bytes : Job → ℕ) (time : ℕ) (id : String) (c : Changes) (table table' : Jobs)
    → update_job json_bytes time id c table ≡ ok table'
    → Advances table table'
unfolding update_job
update_job-Advances json_bytes time id c table table' h =
    let (j, g1, h1) = >>=-eq-ok (require_job (read_job id table)) _ h in
    let (_, h2) = >>-eq-ok (require (not (leased time j)) _) _ h1 in
    let (j', g3, h3) = >>=-eq-ok (updated_job j c time) _ h2 in
    rewritten-Advances json_bytes time id c j j' table table'
      (require_job-eq-ok (read_job id table) j g1) g3 h3

pub retire_job-Advances :
    (json_bytes : Job → ℕ) (time : ℕ) (id : String) (o : Option Job) (table : Jobs) (n : ℕ)
    (table' : Jobs)
    → read_job id table ≡ o
    → retire_job json_bytes time id o table ≡ ok (n, table')
    → Advances table table'
unfolding retire_job
retire_job-Advances json_bytes time id none table n table' found h =
    subst (Advances table) (ap (λ (x : ℕ × Jobs). x.1) (ok-injective h)) (Advances-refl table)
retire_job-Advances json_bytes time id (some j) table n table' found h =
    elim (Bool-cases (same_state j.state obsolete || leased time j)) [
      | inl skip ↦
          subst (Advances table) (ap (λ (x : ℕ × Jobs). x.1) (ok-injective (rw skip at h)))
            (Advances-refl table)
      | inr go ↦
          let (j', g1, h1) = >>=-eq-ok (updated_job j obsoleted time) _ (rw go at h) in
          let (t, g2, h2) = >>=-eq-ok (write_job json_bytes id j' table) _ h1 in
          subst (Advances table) (ap (λ (x : ℕ × Jobs). x.1) (ok-injective h2))
            (rewritten-Advances json_bytes time id obsoleted j j' table t found g1 g2)
    ]

pub retire_jobs-Advances :
    (json_bytes : Job → ℕ) (time : ℕ) (ids : List String) (retired : ℕ) (table : Jobs) (n : ℕ)
    (table' : Jobs)
    → retire_jobs json_bytes time ids retired table ≡ ok (n, table')
    → Advances table table'
unfolding retire_jobs
retire_jobs-Advances json_bytes time [] retired table n table' h =
    subst (Advances table) (ap (λ (x : ℕ × Jobs). x.1) (ok-injective h)) (Advances-refl table)
retire_jobs-Advances json_bytes time (id ∷ ids) retired table n table' h =
    let (p, g, h1) = >>=-eq-ok (retire_job json_bytes time id (read_job id table) table) _ h in
    Advances-trans (retire_job-Advances json_bytes time id (read_job id table) table p.0 p.1 refl g)
      (retire_jobs-Advances json_bytes time ids (retired + p.0) p.1 n table' h1)
