-- ===== src/Jobs/History.antt =====
-- The life of the table: any sequence of committed store operations, by any workers at any times.
use parliament.Base.{All, ok, ℕ, String, ◌≡◌, Bool, Option, List}
use parliament.Value.{Value, Fields, Reading}
use parliament.Job.{Job, Changes}
use parliament.Job.Succession.{IsWellFormed}
use parliament.Jobs.{Jobs, enqueue, update_job, claim, update_leased, renew_leases, retire_jobs}
use parliament.Jobs.Rows.{Unique, Evolves, Advances, Advances-refl, Advances-trans}
use parliament.Jobs.ClaimRows.{claim-Advances}
use parliament.Jobs.Leases.{update_leased-Advances, renew_leases-Advances}
use parliament.Jobs.Growth.{enqueue-Advances, update_job-Advances, retire_jobs-Advances}

-- One committed transaction. `release` and `checkpoint` are batches of one change.
pub data Step (json_bytes : Job → ℕ) (digest : String → String → String)
    : Jobs → Jobs → Type 0 where
  enqueued :
      {t t' : Jobs} (time : ℕ) (kind key : String) (request : Value) (context : Fields)
      (id : String)
      → enqueue json_bytes digest time kind key request context t ≡ ok (id, t')
      → Step json_bytes digest t t'
  updated :
      {t t' : Jobs} (time : ℕ) (id : String) (c : Changes)
      → update_job json_bytes time id c t ≡ ok t'
      → Step json_bytes digest t t'
  claimed :
      {t t' : Jobs} (time : ℕ) (owner : String) (lease : Reading) (limit : ℕ) (now : Option Reading)
      (out : Jobs)
      → claim json_bytes time owner lease limit now t ≡ ok (out, t')
      → Step json_bytes digest t t'
  changed :
      {t t' : Jobs} (time : ℕ) (owner : String) (changes : List (String × Changes × Bool))
      (now : Option Reading) (out : Jobs)
      → update_leased json_bytes time owner changes now t ≡ ok (out, t')
      → Step json_bytes digest t t'
  renewed :
      {t t' : Jobs} (time : ℕ) (owner : String) (ids : List String) (lease : Reading)
      (now : Option Reading)
      → renew_leases json_bytes time owner ids lease now t ≡ ok t'
      → Step json_bytes digest t t'
  retired :
      {t t' : Jobs} (time : ℕ) (ids : List String) (before n : ℕ)
      → retire_jobs json_bytes time ids before t ≡ ok (n, t')
      → Step json_bytes digest t t'

pub data Reach (json_bytes : Job → ℕ) (digest : String → String → String) (t : Jobs)
    : Jobs → Type 0 where
  here : Reach json_bytes digest t t
  next :
      {u v : Jobs}
      → Reach json_bytes digest t u
      → Step json_bytes digest u v
      → Reach json_bytes digest t v

-- a table with unique ids and well-formed jobs
pub record IsSound (t : Jobs) : Type 0 where
  pub ids : Unique t
  pub jobs : All IsWellFormed t

Step-Advances :
    {json_bytes : Job → ℕ} {digest : String → String → String} {t u : Jobs}
    → Step json_bytes digest t u
    → Unique t
    → Advances t u
Step-Advances {json_bytes} {digest} {t} {u} (enqueued time kind key request context id h) q =
    enqueue-Advances json_bytes digest time kind key request context t id u h
Step-Advances {json_bytes} {digest} {t} {u} (updated time id c h) q =
    update_job-Advances json_bytes time id c t u h
Step-Advances {json_bytes} {digest} {t} {u} (claimed time owner lease limit now out h) q =
    claim-Advances json_bytes time owner lease limit now t out u q h
Step-Advances {json_bytes} {digest} {t} {u} (changed time owner changes now out h) q =
    update_leased-Advances json_bytes time owner changes now t out u h
Step-Advances {json_bytes} {digest} {t} {u} (renewed time owner ids lease now h) q =
    renew_leases-Advances json_bytes time owner ids lease now t u h
Step-Advances {json_bytes} {digest} {t} {u} (retired time ids before n h) q =
    retire_jobs-Advances json_bytes time ids before t n u h

Reach-Advances :
    {json_bytes : Job → ℕ} {digest : String → String → String} {t u : Jobs}
    → Unique t
    → Reach json_bytes digest t u
    → Advances t u
Reach-Advances {t = t} q here = Advances-refl t
Reach-Advances q (next r s) =
    let a = Reach-Advances q r in Advances-trans a (Step-Advances s (a.unique q))

-- Along every history from a sound table no job is lost: each stands at its place in a later revision
-- of itself, with the work it was given, attempts only counted up, its remote identity written at
-- most once, a finished job never reopened and a completed result only replaced by one that Python
-- holds equal (True for 1); and the ids stay unique, every polling job has its remote identity and
-- every completed job its result.
pub Reach-Succeeds :
    (json_bytes : Job → ℕ) (digest : String → String → String) (t u : Jobs)
    → IsSound t
    → Reach json_bytes digest t u
    → Evolves t u × IsSound u
Reach-Succeeds json_bytes digest t u s r =
    let a = Reach-Advances s.ids r in
    (a.evolves s.ids, record { ids = a.unique s.ids; jobs = a.well_formed s.jobs })
