-- ===== src/Jobs/Retiring.antt =====
-- store_bulk.py, retire_results on the jobs: every job under a retired id is obsolete afterwards,
-- unless it was leased.
use parliament.Base.{
  Bool-cases, some-eq, ok-injective, any, All, All-map, ok, >>=-eq-ok, ℕ, ◌+◌, String, ◌≡◌, refl,
  sym, ap, ◌∙◌, subst, ◌⊎◌, inl, inr, Bool, true, false, ◌||◌, Option, none, some, List, [], ◌∷◌,
  str_eq, str_eq_iff,
}
use parliament.Job.{Job, JobState, obsolete, same_state, leased, updated_job, state_of_name}
use parliament.Job.Update.{updated_job-state}
use parliament.Jobs.{Jobs, retire_job, retire_jobs, obsoleted, read_job, write_job}
use parliament.Jobs.Rows.{Unique, rewrite, write_job-rewrite}
use parliament.Jobs.Growth.{retire_job-Advances}
use parliament.Jobs.Lookups.{rows_found}

-- a property of the jobs that are under none of the ids
abbrev pub Unlisted : (Job → Type 0) → List String → Job → Type 0
Unlisted P ids j = P j ⊎ (any (str_eq j.id) ids ≡ true)

-- what holds of every obsolete and of every leased job
pub record Excuses (P : Job → Type 0) (time : ℕ) : Type 0 where
  pub retired : (j : Job) → same_state j.state obsolete ≡ true → P j
  pub busy : (j : Job) → leased time j ≡ true → P j

same_id-same_job :
    (table : Jobs) (id : String) (j : Job)
    → Unique table
    → read_job id table ≡ some j
    → All (λ k. str_eq k.id id ≡ true → k ≡ j) table
same_id-same_job table id j u found =
    All-map _ _ table
      (λ (k : Job) (h : read_job k.id table ≡ some k) e.
        some-eq (sym h ∙ ap (λ (x : String). read_job x table) ((str_eq_iff k.id id).0 e) ∙ found))
      (rows_found table u)

missing :
    (table : Jobs) (id : String)
    → read_job id table ≡ none
    → All (λ k. str_eq k.id id ≡ false) table
unfolding read_job
missing [] id h = tt
missing (k ∷ ks) id h = elim (Bool-cases (str_eq k.id id)) [
  | inl same ↦ absurd (let e = rw same at h in cc)
  | inr other ↦ (other, missing ks id (rw other at h))
]

-- a row that the first id does not name is still unlisted for the others
drop_id :
    (P : Job → Type 0) (id : String) (ids : List String) (k : Job)
    → (str_eq k.id id ≡ true → P k)
    → Unlisted P (id ∷ ids) k
    → Unlisted P ids k
drop_id P id ids k own (inl p) = inl p
drop_id P id ids k own (inr listed) = elim (Bool-cases (str_eq k.id id)) [
  | inl same ↦ inl (own same)
  | inr other ↦ inr (rw other at listed)
]

drop_all :
    (P : Job → Type 0) (id : String) (ids : List String) (table : Jobs)
    → All (λ k. str_eq k.id id ≡ true → P k) table
    → All (Unlisted P (id ∷ ids)) table
    → All (Unlisted P ids) table
drop_all P id ids [] own a = tt
drop_all P id ids (k ∷ ks) own a = (drop_id P id ids k own.0 a.0, drop_all P id ids ks own.1 a.1)

rewrite_all :
    (P : Job → Type 0) (id : String) (ids : List String) (j : Job) (table : Jobs)
    → P j
    → All (Unlisted P (id ∷ ids)) table
    → All (Unlisted P ids) (rewrite id j table)
rewrite_all P id ids j [] p a = tt
rewrite_all P id ids j (k ∷ ks) p a = elim (Bool-cases (str_eq k.id id)) [
  | inl same ↦ rw same (inl p, rewrite_all P id ids j ks p a.1)
  | inr other ↦
      rw other (
        drop_id P id ids k (λ e. absurd (let o = other in cc)) a.0,
        rewrite_all P id ids j ks p a.1,
      )
]

obsoleted-state :
    (time : ℕ) (j j' : Job)
    → updated_job j obsoleted time ≡ ok j'
    → same_state j'.state obsolete ≡ true
obsoleted-state time j j' h =
    subst (λ (x : JobState). same_state x obsolete ≡ true)
      (sym (updated_job-state j obsoleted time "obsolete" obsolete h refl state_obsolete))
      (unfold same_state in refl)
  where
    state_obsolete : state_of_name "obsolete" ≡ some obsolete
    state_obsolete = unfold state_of_name in refl

retire_job-Unlisted :
    (P : Job → Type 0) (json_bytes : Job → ℕ) (time : ℕ) (id : String) (ids : List String)
    (o : Option Job) (table : Jobs) (n : ℕ) (table' : Jobs)
    → Excuses P time
    → Unique table
    → read_job id table ≡ o
    → retire_job json_bytes time id o table ≡ ok (n, table')
    → All (Unlisted P (id ∷ ids)) table
    → All (Unlisted P ids) table'
unfolding retire_job
retire_job-Unlisted P json_bytes time id ids none table n table' x u found h a =
    subst (All (Unlisted P ids)) (ap (λ (y : ℕ × Jobs). y.1) (ok-injective h)) (
      drop_all P id ids table
        (All-map _ _ table (λ k e t. absurd (let f = e in cc)) (missing table id found)) a)
retire_job-Unlisted P json_bytes time id ids (some j) table n table' x u found h a =
    elim (Bool-cases (same_state j.state obsolete || leased time j)) [
      | inl skip ↦
          let p = excused (same_state j.state obsolete) refl skip in
          subst (All (Unlisted P ids)) (ap (λ (y : ℕ × Jobs). y.1) (ok-injective (rw skip at h))) (
            drop_all P id ids table
              (All-map _ _ table (λ k e t. subst P (sym (e t)) p)
                (same_id-same_job table id j u found))
              a)
      | inr go ↦
          let (j', g1, h1) = >>=-eq-ok (updated_job j obsoleted time) _ (rw go at h) in
          let (t, g2, h2) = >>=-eq-ok (write_job json_bytes id j' table) _ h1 in
          let w = write_job-rewrite json_bytes id j' table g2 in
          let e = ap (λ (y : ℕ × Jobs). y.1) (ok-injective h2) in
          subst (All (Unlisted P ids)) (sym w ∙ e)
            (rewrite_all P id ids j' table (x.retired j' (obsoleted-state time j j' g1)) a)
    ]
  where
    excused : (b : Bool) → same_state j.state obsolete ≡ b → (b || leased time j) ≡ true → P j
    excused true e s = x.retired j e
    excused false e s = x.busy j s

-- What holds of obsolete and of leased jobs, and of all that are under no retired id, holds of
-- every job after the retirement.
pub retire_jobs-Unlisted :
    (P : Job → Type 0) (json_bytes : Job → ℕ) (time : ℕ) (ids : List String) (count : ℕ)
    (table : Jobs) (n : ℕ) (table' : Jobs)
    → Excuses P time
    → Unique table
    → retire_jobs json_bytes time ids count table ≡ ok (n, table')
    → All (Unlisted P ids) table
    → All P table'
unfolding retire_jobs
retire_jobs-Unlisted P json_bytes time [] count table n table' x u h a =
    subst (All P) (ap (λ (y : ℕ × Jobs). y.1) (ok-injective h)) (All-map _ _ table listed a)
  where
    listed : (k : Job) → Unlisted P [] k → P k
    listed k (inl p) = p
    listed k (inr e) = cc
retire_jobs-Unlisted P json_bytes time (id ∷ ids) count table n table' x u h a =
    let (p, g, h1) = >>=-eq-ok (retire_job json_bytes time id (read_job id table) table) _ h in
    let adv = retire_job-Advances json_bytes time id (read_job id table) table p.0 p.1 refl g in
    retire_jobs-Unlisted P json_bytes time ids (count + p.0) p.1 n table' x (adv.unique u) h1
      (retire_job-Unlisted P json_bytes time id ids (read_job id table) table p.0 p.1 x u refl g a)
