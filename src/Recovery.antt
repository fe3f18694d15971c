-- ===== src/Recovery.antt =====
-- worker/src/parliament_worker/graphrag/recovery.py: an inference request whose acceptance is not
-- known is deferred, the factory is paused, and the request is sent again under its own idempotency
-- key. An operation of several transactions keeps what the committed ones wrote when a later one
-- raises. A pass of the client and of the clock is a parameter.
pub mod Passed
pub mod Declined
pub mod Recorded
pub mod Paused
pub mod Draining
mod Samples
use Prim.Native.String.{◌++◌ as text_append}
use parliament.Base.{
  ltb, leb, ◌==◌, if◌then◌else◌, ltb→lt, lt→ltb, leb→le, le→leb, Bool-cases, Option-cases,
  str_eq_refl, opt_eq, opt_eq_sound, &&-eq-true, ||-eq-false, &&-false, some-eq, ok-injective,
  str_eq_comm, length, take, select, any, find, is_nil, All, length-append, length-take-le,
  All-append, All-map, Error, Result, ok, err, ◌>>=◌, ◌>>◌, require, >>=-eq-ok, >>-eq-ok,
  require-eq-ok, ℕ, zero, suc, ◌+◌, ◌-◌, ◌*◌, ◌≤◌, ◌<◌, min, max, String, ◌≡◌, refl, sym, ap, ◌∙◌,
  subst, ◌≢◌, ◌↔◌, ◌⊎◌, inl, inr, Bool, true, false, ◌&&◌, ◌||◌, not, Option, none, some, List, [],
  ◌∷◌, ◌++◌, map, arith, str_eq, str_eq_iff, invalid_recovery_limit,
}
use parliament.Value.{Value, Fields, obj, str, bool, get, ticks}
use parliament.Value.Objects.{fields_of, is_text, put_field, drop_field}
use parliament.Job.{Job, Changes, no_changes, deferred, polling, same_state, truthy, leased}
use parliament.Jobs.{Jobs, release, update_job, read_job}
use parliament.Artifacts.{Artifact, Artifacts, get_artifact, invalidate_artifact}
use parliament.Execution.{completion_uncertain}
use parliament.Execution.Wave.{
  Outcome, Digest, deferral, pause_unknown_acceptance, paused_state, is_uncertain,
}

-- what one pass meets: the client's answers, an error for an InferenceError, and the readings of the
-- clock in the order of the code; the filter reads the clock for each job
pub record Pass : Type 0 where
  pub ready : Result Fields
  pub submit : Value → String → Result String
  pub scanning : Job → ℕ
  pub pausing : ℕ
  pub polling_from : ℕ
  pub updating : ℕ
  pub pausing_again : ℕ

-- `job["metadata"].get("expected_model") == signature`, and the other tests on a deferred job
pub recoverable : String → (Job → ℕ) → Job → Bool
unfolding is_uncertain same_state leased get
recoverable signature scanning j =
    same_state j.state deferred
    && is_uncertain j
    && is_text signature (get "expected_model" (fields_of j.metadata))
    && not (leased (scanning j) j)

abbrev pub payload_field : String → Artifact → Option Value
payload_field name a = get name (fields_of a.payload)

-- `pause and pause["payload"].get("reason") != "inference_acceptance_unknown"`
pub foreign_pause : Option Artifact → Bool
unfolding get
foreign_pause none = false
foreign_pause (some a) = not (is_text "inference_acceptance_unknown" (payload_field "reason" a))

-- the first of the uncertain jobs under the id of the pause
abbrev pub named_job : Option Value → Jobs → Option Job
named_job (some (str id)) jobs = find (λ j. str_eq j.id id) jobs
named_job _ jobs = none

abbrev pub first_of : Jobs → Option Job
first_of [] = none
first_of (j ∷ js) = some j

-- `store.get_job(job_id) if isinstance(job_id, str) else None`
abbrev pub prior_job : Option Value → Jobs → Option Job
prior_job (some (str id)) table = read_job id table
prior_job _ table = none

-- `prior and prior["remote_id"] and prior["state"] == "polling"`
abbrev pub is_settled : Option Job → Bool
is_settled none = false
is_settled (some j) = truthy j.remote_id && same_state j.state polling

abbrev pub is_yes : Option Value → Bool
is_yes (some (bool b)) = b
is_yes _ = false

abbrev pub model_of : Option Value → Option Value → Option String
model_of (some (str repository)) (some (str revision)) =
    some (text_append repository (text_append "@" revision))
model_of _ _ = none

-- the tests on the answer of `client.ready()`, negated
pub ready_matches : String → Fields → Bool
unfolding get
ready_matches signature ready =
    is_yes (get "ready" ready)
    && opt_eq (model_of (get "model_repository" ready) (get "model_revision" ready))
        (some signature)

abbrev pub settled_metadata : Job → Value
settled_metadata j = obj (
    put_field "completion_uncertain" (bool false)
      (drop_field "error_status" (fields_of j.metadata)))

abbrev pub accepted : ℕ → Job → String → Changes
accepted now j remote_id = record no_changes {
  state = some "polling";
  remote_id = some (some remote_id);
  next_poll = some (ticks now);
  metadata = some (settled_metadata j);
  error = some none;
}

-- the pause for a job that is left, if there is one, and True
pub pause_for : Digest → Option Job → ℕ → Artifacts → Jobs → Outcome Bool
unfolding paused_state pause_unknown_acceptance
pause_for digest none now rows table = ((rows, table), ok true)
pause_for digest (some j) now rows table =
    paused_state rows table true (pause_unknown_acceptance digest j.id now rows)

-- the loop of drain_unknown_acceptance goes on after a pass that returned True
pub drain_next : ℕ → Outcome Bool → (Artifacts × Jobs → Outcome ℕ) → Outcome ℕ
drain_next recovered (state, err e) rest = (state, err e)
drain_next recovered (state, ok false) rest = (state, ok recovered)
drain_next recovered (state, ok true) rest = rest state

module _ (json_bytes : Job → ℕ) (digest : Digest) (signature : String) where
  -- from the recorded update on
  pub after_update : Pass → Job → Jobs → Artifacts → Jobs → Result Jobs → Outcome Bool
  unfolding pause_for
  after_update p j uncertain rows table (err e) = ((rows, table), err e)
  after_update p j uncertain rows table (ok table') =
      pause_for digest (find (λ k. not (str_eq k.id j.id)) uncertain) p.pausing_again
        (invalidate_artifact "control" "pause" rows) table'

  pub after_submit : Pass → Job → Jobs → Artifacts → Jobs → Result String → Outcome Bool
  unfolding after_update
  after_submit p j uncertain rows table (err e) = ((rows, table), err e)
  after_submit p j uncertain rows table (ok remote_id) =
      after_update p j uncertain rows table
        (update_job json_bytes p.updating j.id (accepted p.polling_from j remote_id) table)

  pub after_pause : Pass → Job → Jobs → Artifacts → Jobs → Result Artifacts → Outcome Bool
  unfolding after_submit
  after_pause p j uncertain rows table (err e) = ((rows, table), err e)
  after_pause p j uncertain rows table (ok rows') =
      after_submit p j uncertain rows' table (p.submit j.request j.idempotency_key)

  -- `if not pause: pause_unknown_acceptance(…)`
  pub pause_first : Option Artifact → Pass → Job → Artifacts → Result Artifacts
  unfolding pause_unknown_acceptance
  pause_first (some pause) p j rows = ok rows
  pause_first none p j rows = pause_unknown_acceptance digest j.id p.pausing rows

  pub after_ready :
      Option Artifact → Pass → Job → Jobs → Artifacts → Jobs → Result Fields → Outcome Bool
  unfolding after_pause pause_first ready_matches
  after_ready pause p j uncertain rows table (err e) = ((rows, table), err e)
  after_ready pause p j uncertain rows table (ok ready) =
      if ready_matches signature ready
      then after_pause p j uncertain rows table (pause_first pause p j rows)
      else ((rows, table), ok false)

  -- a pause whose job is not among the uncertain ones: it may have been recorded before
  pub resume_settled : Artifact → Pass → Jobs → Artifacts → Jobs → Outcome Bool
  unfolding pause_for truthy same_state get
  resume_settled pause p uncertain rows table =
      if is_settled (prior_job (payload_field "jobId" pause) table)
      then pause_for digest (first_of uncertain) p.pausing_again
          (invalidate_artifact "control" "pause" rows) table
      else ((rows, table), ok false)

  pub recover_job : Option Artifact → Pass → Option Job → Jobs → Artifacts → Jobs → Outcome Bool
  unfolding after_ready resume_settled
  recover_job (some pause) p none uncertain rows table = resume_settled pause p uncertain rows table
  recover_job none p none uncertain rows table = ((rows, table), ok false)
  recover_job pause p (some j) uncertain rows table =
      after_ready pause p j uncertain rows table p.ready

  -- the job to recover: the one of the pause, or the first one where there is no pause
  pub job_to_recover : Option Artifact → Jobs → Option Job
  unfolding get
  job_to_recover none uncertain = first_of uncertain
  job_to_recover (some pause) uncertain = named_job (payload_field "jobId" pause) uncertain

  -- recover_unknown_acceptance
  pub recover_unknown_acceptance : Pass → Artifacts × Jobs → Outcome Bool
  unfolding recover_job job_to_recover foreign_pause recoverable
  recover_unknown_acceptance p (rows, table) =
      let pause = get_artifact "control" "pause" rows in
      let uncertain = select (recoverable signature p.scanning) table in
      if foreign_pause pause
      then ((rows, table), ok false)
      else recover_job pause p (job_to_recover pause uncertain) uncertain rows table

  -- the loop of drain_unknown_acceptance: `left` more passes may succeed, `recovered` did
  pub drain_loop : (ℕ → Pass) → ℕ → ℕ → Artifacts × Jobs → Outcome ℕ
  unfolding recover_unknown_acceptance drain_next
  drain_loop passes zero recovered state = (state, ok recovered)
  drain_loop passes (suc left) recovered state =
      drain_next recovered (recover_unknown_acceptance (passes recovered) state)
        (drain_loop passes left (suc recovered))

  -- drain_unknown_acceptance
  pub drain_unknown_acceptance : (ℕ → Pass) → ℕ → Artifacts × Jobs → Outcome ℕ
  unfolding drain_loop
  drain_unknown_acceptance passes limit state =
      if leb 1 limit && leb limit 64
      then drain_loop passes limit 0 state
      else (state, err invalid_recovery_limit)

  -- what follows the release of defer_unknown_acceptance
  pub after_deferral : Job → ℕ → Artifacts → Jobs → Result Jobs → Outcome Bool
  unfolding paused_state pause_unknown_acceptance
  after_deferral j now rows table (err e) = ((rows, table), err e)
  after_deferral j now rows table (ok table') =
      paused_state rows table' true (pause_unknown_acceptance digest j.id now rows)

  -- defer_unknown_acceptance; an hour is 3600 times `second`
  pub defer_unknown_acceptance :
      (second time : ℕ) → String → ℕ → Job → Artifacts × Jobs → Outcome Bool
  unfolding after_deferral is_uncertain
  defer_unknown_acceptance second time owner now j (rows, table) =
      if is_uncertain j
      then after_deferral j now rows table
          (release json_bytes time j.id owner none (deferral (now + 3600 * second)) table)
      else ((rows, table), ok false)
