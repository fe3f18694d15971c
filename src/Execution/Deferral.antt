-- ===== src/Execution/Deferral.antt =====
-- execution.py, _error_fields and _inference_error: what a failed call leaves of its job. `now` is
-- the reading of _inference_error, `time` the later one of the store.
pub mod Delays
mod Samples
use parliament.Base.{
  ltb, leb, ◌==◌, if◌then◌else◌, ltb→lt, lt→ltb, leb→le, le→leb, Bool-cases, Option-cases,
  str_eq_refl, opt_eq, opt_eq_sound, &&-eq-true, ||-eq-false, &&-false, some-eq, ok-injective,
  str_eq_comm, length, take, select, any, find, is_nil, All, length-append, length-take-le,
  All-append, All-map, Error, Result, ok, err, ◌>>=◌, ◌>>◌, require, >>=-eq-ok, >>-eq-ok,
  require-eq-ok, ℕ, zero, suc, ◌+◌, ◌-◌, ◌*◌, ◌≤◌, ◌<◌, min, max, String, ◌≡◌, refl, sym, ap, ◌∙◌,
  subst, ◌≢◌, ◌↔◌, ◌⊎◌, inl, inr, Bool, true, false, ◌&&◌, ◌||◌, not, Option, none, some, List, [],
  ◌∷◌, ◌++◌, map, arith, str_eq, str_eq_iff, ◌^◌,
}
use parliament.Value.{
  Value, Fields, obj, num, bool, str, field, end, pos, null, get, ticks, Reading,
}
use parliament.Value.Objects.{fields_of, put_field}
use parliament.Job.{
  Job, Changes, no_changes, truthy, deferred, JobState, due, runnable, reading_or, updated_job,
  state_of_name, apply_changes,
}
use parliament.Job.Update.{updated_job-state, updated_job-next_poll}
use parliament.Job.Succession.{updated_job-Succeeds}
use parliament.Jobs.{Jobs, release, read_job, update_leased, release_job}
use parliament.Jobs.Holding.{release-row}
use parliament.Jobs.Lookups.{read_job-rewrite_self}
use parliament.Jobs.Leases.{update_leased_loop-cons, update_leased_loop-nil, update_leased-now}
use parliament.Artifacts.{Artifacts, put_artifact}
use native.Mathlib.Nat.{pow-le-pow_right, mul-le-mul_right, mul_assoc}
use parliament.Execution.{Factory}
use parliament.Execution.Wave.{Outcome, Digest, pause_unknown_acceptance, paused_state}

-- an InferenceError of client.py; `retry_after` in ticks
pub record InferenceError : Type 0 where
  pub category : String
  pub retryable : Bool
  pub uncertain : Bool
  pub status : Option ℕ
  pub retry_after : ℕ

-- `max(error.retry_after, min(300, 5 * 2 ** min(job["attempts"], 6)))`
unfoldable pub delay : ℕ → ℕ → ℕ → ℕ
delay second attempts retry_after =
    max retry_after (min (300 * second) (5 * 2 ^ min attempts 6 * second))

abbrev pub status_value : Option ℕ → Value
status_value none = null
status_value (some n) = num (pos n)

abbrev pub error_metadata : Job → InferenceError → Value
error_metadata j e = obj (
    put_field "completion_uncertain" (bool e.uncertain)
      (put_field "error_status" (status_value e.status) (fields_of j.metadata)))

-- _error_fields
pub error_fields : ℕ → ℕ → Job → InferenceError → Changes
unfolding delay put_field
error_fields second now j e = record no_changes {
  state = some (if e.retryable then "deferred" else "failed");
  error = some (some e.category);
  metadata = some (error_metadata j e);
  next_poll =
      if e.retryable then some (ticks (now + delay second j.attempts e.retry_after)) else none;
}

-- `error.status in {401, 403, 404, 409}`
abbrev pub is_rejection : Option ℕ → Bool
is_rejection none = false
is_rejection (some n) = n == 401 || n == 403 || n == 404 || n == 409

abbrev pub rejection_payload : ℕ → Option ℕ → Value
rejection_payload now status = obj (
    field "at" (num (pos now)) (
      field "reason" (str "inference_configuration_rejected")
        (field "status" (status_value status) end)))

-- the pause for a rejected configuration
pub pause_rejected : Digest → Option ℕ → ℕ → Artifacts → Result Artifacts
pause_rejected digest status now rows = do
  (_, rows') ← put_artifact digest "control" "pause" (obj end) (rejection_payload now status) rows
  ok rows'

-- what follows the release
pub pause_after : Digest → ℕ → Job → InferenceError → Artifacts → Jobs → Outcome (Unit {0})
unfolding pause_unknown_acceptance paused_state pause_rejected truthy
pause_after digest now j e rows table =
    if e.uncertain && not (truthy j.remote_id)
    then paused_state rows table tt (pause_unknown_acceptance digest j.id now rows)
    else if is_rejection e.status
    then paused_state rows table tt (pause_rejected digest e.status now rows)
    else ((rows, table), ok tt)

pub after_release :
    Digest → ℕ → Job → InferenceError → Artifacts → Jobs → Result Jobs → Outcome (Unit {0})
unfolding pause_after
after_release digest now j e rows table (ok table') = pause_after digest now j e rows table'
after_release digest now j e rows table (err problem) = ((rows, table), err problem)

-- _inference_error
pub inference_error :
    (Job → ℕ)
    → ℕ
    → Digest
    → ℕ
    → Factory
    → ℕ
    → Job
    → InferenceError
    → Artifacts × Jobs
    → Outcome (Unit {0})
unfolding after_release error_fields
inference_error json_bytes time digest second f now j e (rows, table) =
    after_release digest now j e rows table
      (release json_bytes time j.id f.owner none (error_fields second now j e) table)
