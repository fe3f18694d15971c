-- ===== src/Jobs.antt =====
-- worker/src/parliament_worker/graphrag/store.py, store_leases.py and the job half of store_bulk.py:
-- the operations of GraphStore on the table of jobs. Each function is the body of the operation's
-- transaction: an error means that the exception leaves it, and that nothing is committed.
-- Parameters of the model: `json_bytes`, the length of a job's canonical JSON in UTF-8;
-- `digest`, the SHA-256 text of a kind and a key; `time`, what `time.time()` returns.
pub mod Rows
pub mod Sorting
pub mod Claiming
pub mod Exclusion
pub mod Lookups
pub mod Counting
pub mod ClaimRows
pub mod Serving
pub mod Served
pub mod Starving
pub mod Leases
pub mod Unnamed
pub mod Turns
pub mod Holding
pub mod Queue
pub mod Pending
pub mod Growth
pub mod History
pub mod Listing
pub mod Retiring
pub mod Keyed
mod Samples
use Prim.Native.String.{◌++◌ as text_append}
use parliament.Base.{
  ℕ, suc, ◌+◌, ◌≡◌, String, Bool, true, false, ◌&&◌, ◌||◌, not, Option, none, some, List, [], ◌∷◌,
  ◌++◌, map, ltb, leb, ◌==◌, if◌then◌else◌, str_eq, is_nil, any, find, select, take, length, Result,
  ok, err, require, ◌>>=◌, ◌>>◌, invalid_identifier, credentials_persisted, stale_lease,
  unknown_job, active_lease, invalid_job_limit, invalid_job_lease, invalid_lease_renewal,
  job_replay_conflict, job_too_large,
}
use parliament.Base.Tables.{update_where}
use parliament.Value.{
  Value, null, obj, end, Fields, same, same_fields, label_valid, validate_label, Reading, ticks,
  store_clock, has_credentials, has_credentials_fields,
}
use parliament.Job.{
  Job, JobState, planned, obsolete, Changes, no_changes, runnable, same_state, updated_job,
  require_lease, leased, due, job_priority, key_lt,
}

abbrev pub Jobs : Type 0
Jobs = List Job

-- SELECT data FROM jobs WHERE id=?
unfoldable pub read_job : String → Jobs → Option Job
read_job id table = find (λ j. str_eq j.id id) table

-- MAX_JOB_BYTES of job_codec.py
abbrev pub max_job_bytes : ℕ
max_job_bytes = 4000000

-- `sorted(jobs, key=job_priority)`: a stable insertion sort by the key
pub insert_job : Job → Jobs → Jobs
insert_job j [] = j ∷ []
insert_job j (k ∷ ks) =
    if key_lt (job_priority k) (job_priority j) then k ∷ insert_job j ks else j ∷ k ∷ ks

pub sort_jobs : Jobs → Jobs
unfolding insert_job
sort_jobs [] = []
sort_jobs (j ∷ js) = insert_job j (sort_jobs js)

-- GraphStore._runnable_jobs
pub runnable_jobs : Jobs → Jobs
runnable_jobs table = select (λ j. runnable j.state) table

-- `limit < 1 or limit > 10000`, negated
abbrev pub limit_valid : ℕ → Bool
limit_valid limit = leb 1 limit && leb limit 10000

-- `math.isfinite(lease_seconds) and lease_seconds > 0`
abbrev pub duration_valid : Reading → Bool
duration_valid (ticks n) = leb 1 n
duration_valid _ = false

abbrev pub duration : Reading → ℕ
duration (ticks n) = n
duration _ = 0

pub pending : ℕ → ℕ → Option Reading → Jobs → Result Jobs
unfolding runnable_jobs
pending time limit now table = do
  require (limit_valid limit) invalid_job_limit
  instant ← store_clock time now
  ok (take limit (select (λ j. due j instant) (sort_jobs (runnable_jobs table))))

-- `job.update(lease_owner=owner, lease_until=instant + lease_seconds, updated_at=instant)`
abbrev pub lease_job : String → ℕ → ℕ → Job → Job
lease_job owner instant seconds j = record j {
  lease_owner = some owner;
  lease_until = instant + seconds;
  updated_at = instant;
}

-- `updated.update(lease_owner=None, lease_until=0.0)`
abbrev pub release_job : Bool → Job → Job
release_job release j = if release then record j { lease_owner = none; lease_until = 0 } else j

abbrev pub extend_job : ℕ → Job → Job
extend_job until j = record j { lease_until = until }

abbrev pub new_job : String → String → String → Value → Fields → ℕ → Job
new_job fingerprint kind key request context now = record {
  id = text_append "gr_" fingerprint;
  kind = kind;
  key = key;
  request = request;
  context = context;
  idempotency_key = text_append "graphrag-" fingerprint;
  state = planned;
  remote_id = none;
  next_poll = 0;
  attempts = 0;
  result = null;
  error = none;
  metadata = obj end;
  lease_owner = none;
  lease_until = 0;
  created_at = now;
  updated_at = now;
}

-- `len(job_ids) != len(set(job_ids))`, negated
unfoldable pub distinct : List String → Bool
distinct [] = true
distinct (id ∷ ids) = not (any (str_eq id) ids) && distinct ids

abbrev pub obsoleted : Changes
obsoleted = record no_changes { state = some "obsolete" }

pub require_job : Option Job → Result Job
require_job none = err unknown_job
require_job (some j) = ok j

module _ (json_bytes : Job → ℕ) where
  -- UPDATE jobs SET data=encode_job(job) WHERE id=?; encode_job refuses an oversized job
  unfoldable pub write_job : String → Job → Jobs → Result Jobs
  write_job id j table = do
    require (leb (json_bytes j) max_job_bytes) job_too_large
    ok (update_where (λ k. str_eq k.id id) (λ _. j) table)

  -- a replay must carry the same request and context; new work is inserted last
  pub enqueue_row : Option Job → Job → Jobs → Result (String × Jobs)
  enqueue_row (some prior) j table = do
    require (same prior.request j.request && same_fields prior.context j.context)
        job_replay_conflict
    ok (j.id, table)
  enqueue_row none j table = do
    require (leb (json_bytes j) max_job_bytes) job_too_large
    ok (j.id, table ++ j ∷ [])

  -- GraphStore._enqueue
  pub enqueue :
      (digest : String → String → String) (time : ℕ) (kind key : String) (request : Value)
      (context : Fields)
      → Jobs
      → Result (String × Jobs)
  unfolding enqueue_row
  enqueue digest time kind key request context table = do
    validate_label kind
    validate_label key
    require (not (has_credentials request)) credentials_persisted
    require (not (has_credentials_fields context)) credentials_persisted
    let j = new_job (digest kind key) kind key request context time
    enqueue_row (read_job j.id table) j table

  -- GraphStore.update_job
  unfoldable pub update_job : ℕ → String → Changes → Jobs → Result Jobs
  unfolding require_job
  update_job time id c table = do
    j ← require_job (read_job id table)
    require (not (leased time j)) active_lease
    j' ← updated_job j c time
    write_job id j' table

  -- the loop of GraphStore.claim over the sorted jobs; `claimed` grows at its end
  pub claim_loop : String → ℕ → ℕ → ℕ → Jobs → Jobs → Jobs → Result (Jobs × Jobs)
  unfolding write_job
  claim_loop owner instant seconds limit [] claimed table = ok (claimed, table)
  claim_loop owner instant seconds limit (j ∷ js) claimed table =
      let took = lease_job owner instant seconds j in
      let take_it =
        write_job j.id took table
        >>= claim_loop owner instant seconds limit js (claimed ++ took ∷ []) in
      let leave_it = claim_loop owner instant seconds limit js claimed table in
      if due j instant && ltb (length claimed) limit then take_it else leave_it

  -- GraphStore.claim
  pub claim : ℕ → String → Reading → ℕ → Option Reading → Jobs → Result (Jobs × Jobs)
  unfolding claim_loop runnable_jobs
  claim time owner lease_seconds limit now table = do
    validate_label owner
    instant ← store_clock time now
    require (duration_valid lease_seconds && limit_valid limit) invalid_job_lease
    claim_loop owner instant (duration lease_seconds) limit (sort_jobs (runnable_jobs table)) []
        table

  -- the loop of GraphStore.update_leased: each change with its release flag
  pub update_leased_loop :
      String → ℕ → List (String × Changes × Bool) → Jobs → Jobs → Result (Jobs × Jobs)
  unfolding write_job
  update_leased_loop owner instant [] done table = ok (done, table)
  update_leased_loop owner instant ((id, c, release) ∷ rest) done table = do
    j ← require_lease (read_job id table) owner instant
    j' ← updated_job j c instant
    let out = release_job release j'
    table' ← write_job id out table
    update_leased_loop owner instant rest (done ++ out ∷ []) table'

  -- GraphStore.update_leased
  unfoldable pub update_leased :
      ℕ → String → List (String × Changes × Bool) → Option Reading → Jobs → Result (Jobs × Jobs)
  unfolding update_leased_loop
  update_leased time owner changes now table = do
    instant ← store_clock time now
    update_leased_loop owner instant changes [] table

  -- GraphStore.release: one change, and the lease given back
  unfoldable pub release : ℕ → String → String → Option Reading → Changes → Jobs → Result Jobs
  unfolding update_leased
  release time id owner now c table = do
    (_, table') ← update_leased time owner ((id, c, true) ∷ []) now table
    ok table'

  -- GraphStore.checkpoint: one change under the lease
  pub checkpoint : ℕ → String → String → Option Reading → Changes → Jobs → Result (Jobs × Jobs)
  unfolding update_leased
  checkpoint time id owner now c table = update_leased time owner ((id, c, false) ∷ []) now table

  pub renew_loop : String → ℕ → ℕ → List String → Jobs → Result Jobs
  unfolding write_job
  renew_loop owner instant until [] table = ok table
  renew_loop owner instant until (id ∷ ids) table = do
    j ← require_lease (read_job id table) owner instant
    table' ← write_job id (extend_job until j) table
    renew_loop owner instant until ids table'

  -- store_leases.renew_leases
  pub renew_leases : ℕ → String → List String → Reading → Option Reading → Jobs → Result Jobs
  unfolding renew_loop distinct
  renew_leases time owner ids lease_seconds now table = do
    validate_label owner
    instant ← store_clock time now
    require (duration_valid lease_seconds && distinct ids) invalid_lease_renewal
    renew_loop owner instant (instant + duration lease_seconds) ids table

  -- store_bulk.retire_results, one job: a missing, obsolete or leased one is passed over
  pub retire_job : ℕ → String → Option Job → Jobs → Result (ℕ × Jobs)
  unfolding write_job same_state
  retire_job time id none table = ok (0, table)
  retire_job time id (some j) table =
      if same_state j.state obsolete || leased time j
      then ok (0, table)
      else do j' ← updated_job j obsoleted time; table' ← write_job id j' table; ok (1, table')

  -- store_bulk.retire_results, its jobs, and the number retired
  unfoldable pub retire_jobs : ℕ → List String → ℕ → Jobs → Result (ℕ × Jobs)
  unfolding retire_job
  retire_jobs time [] retired table = ok (retired, table)
  retire_jobs time (id ∷ ids) retired table = do
    (n, table') ← retire_job time id (read_job id table) table
    retire_jobs time ids (retired + n) table'
