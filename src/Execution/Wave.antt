-- ===== src/Execution/Wave.antt =====
-- execution.py, _prepare: what a wave of leased jobs does before any HTTP call, and recovery.py,
-- pause_unknown_acceptance and defer_unknown_acceptance. `now` is the reading of `_prepare`, `time`
-- the later one of the store; an operation leaves the state that its committed transactions made.
pub mod Counting
pub mod Holding
pub mod Committing
pub mod Concurrency
pub mod Reserved
pub mod Booking
pub mod Daily
mod Samples
use parliament.Base.{
  stale_lease, ltb, leb, ◌==◌, if◌then◌else◌, ltb→lt, lt→ltb, leb→le, le→leb, Bool-cases,
  Option-cases, str_eq_refl, opt_eq, opt_eq_sound, &&-eq-true, ||-eq-false, &&-false, some-eq,
  ok-injective, str_eq_comm, length, take, select, any, find, is_nil, All, length-append,
  length-take-le, All-append, All-map, Error, Result, ok, err, ◌>>=◌, ◌>>◌, require, >>=-eq-ok,
  >>-eq-ok, require-eq-ok, ℕ, zero, suc, ◌+◌, ◌-◌, ◌*◌, ◌≤◌, ◌<◌, min, max, String, ◌≡◌, refl, sym,
  ap, ◌∙◌, subst, ◌≢◌, ◌↔◌, ◌⊎◌, inl, inr, Bool, true, false, ◌&&◌, ◌||◌, not, Option, none, some,
  List, [], ◌∷◌, ◌++◌, map, arith, str_eq, str_eq_iff, one_if, count_where,
}
use parliament.Value.{Value, Fields, Reading, obj, str, num, bool, field, end, pos, get, ticks}
use parliament.Value.Objects.{fields_of, is_text, put_field, and_then}
use parliament.Job.{Job, Changes, no_changes, truthy, submitting}
use parliament.Jobs.{Jobs, update_leased, release, obsoleted}
use parliament.Jobs.Keyed.{put_by_id}
use parliament.Sources.{Source}
use parliament.Artifacts.{Artifacts, put_artifact}
use parliament.Index.{dependencies_current, prompt_version}
use parliament.Execution.{Factory, completion_uncertain, remote_slot_held, reservation}

-- both tables, and what the call returns or raises
abbrev pub Outcome : Type 0 → Type 0
Outcome A = (Artifacts × Jobs) × Result A

abbrev pub LeasedChange : Type 0
LeasedChange = String × Changes × Bool

abbrev pub deferral : ℕ → Changes
deferral until = record no_changes {
  state = some "deferred";
  next_poll = some (ticks until);
  error = some (some "inference_acceptance_unknown");
}

abbrev pub pause_payload : String → ℕ → Value
pause_payload id now = obj (
    field "at" (num (pos now))
      (field "jobId" (str id) (field "reason" (str "inference_acceptance_unknown") end)))

abbrev pub Digest : Type 0
Digest = String → String → Value → Value → String

-- pause_unknown_acceptance
unfoldable pub pause_unknown_acceptance : Digest → String → ℕ → Artifacts → Result Artifacts
pause_unknown_acceptance digest id now rows = do
  (_, rows') ← put_artifact digest "control" "pause" (obj end) (pause_payload id now) rows
  ok rows'

-- after the first transaction is committed
unfoldable pub paused_state : {A : Type 0} → Artifacts → Jobs → A → Result Artifacts → Outcome A
paused_state rows table a (ok rows') = ((rows', table), ok a)
paused_state rows table a (err e) = ((rows, table), err e)

-- an uncertain request without a remote id
unfoldable pub is_uncertain : Job → Bool
unfolding truthy completion_uncertain
is_uncertain j = not (truthy j.remote_id) && completion_uncertain j

-- the running requests that `running` counts: those taken, less those given back
pub record Slots : Type 0 where
  pub taken : ℕ
  pub freed : ℕ

-- `running >= factory.concurrency`
abbrev pub is_full : Factory → Slots → Bool
is_full f s = leb (f.concurrency + s.freed) s.taken

-- what one leased job adds to the wave
pub record Step : Type 0 where
  pub changes : List LeasedChange
  pub dispatch : Jobs
  pub slots : Slots
  pub current : Jobs

abbrev pub poll_later : ℕ → Changes
poll_later until = record no_changes { next_poll = some (ticks until) }

abbrev pub work_limited : ℕ → Changes
work_limited until = record no_changes {
  next_poll = some (ticks until);
  error = some (some "daily_work_limit");
}

abbrev pub submission_metadata : Fields → Value
submission_metadata metadata = obj (put_field "completion_uncertain" (bool true) metadata)

abbrev pub submission : ℕ → Job → Fields → Changes
submission now j metadata = record no_changes {
  state = some "submitting";
  metadata = some (submission_metadata metadata);
  attempts = some (num (pos (j.attempts + 1)));
  next_poll = some (ticks now);
}

-- `{**job, **fields}`
abbrev pub prepared : ℕ → Job → Fields → Job
prepared now j metadata = record j {
  state = submitting;
  metadata = submission_metadata metadata;
  attempts = j.attempts + 1;
  next_poll = now;
}

-- `context.get("prompt_version", PROMPT_VERSION) != PROMPT_VERSION`, negated
abbrev pub prompt_current : Option Value → Bool
prompt_current none = true
prompt_current (some v) = is_text prompt_version (some v)

-- what the loop over the wave reads besides the job store
pub record Surroundings : Type 0 where
  pub fingerprint : Value → String
  pub sources : List Source
  pub second : ℕ
  pub day : String

-- the first test of the loop, negated
pub wanted : Surroundings → Factory → Fields → Result Bool
unfolding get
wanted w f context = and_then (dependencies_current w.fingerprint context w.sources) (
    ok (
      is_text f.model_signature (get "model_signature" context)
      && prompt_current (get "prompt_version" context)))

pub plan_submission : Surroundings → ℕ → Job → Slots → Jobs → Option Fields → Step
unfolding put_by_id
plan_submission w now j s current none = record {
  changes = (j.id, work_limited (now + 60 * w.second), true) ∷ [];
  dispatch = [];
  slots = s;
  current = current;
}
plan_submission w now j s current (some metadata) = record {
  changes = (j.id, submission now j metadata, false) ∷ [];
  dispatch = prepared now j metadata ∷ [];
  slots = record s { taken = s.taken + one_if (not (remote_slot_held j)) };
  current = put_by_id (prepared now j metadata) current;
}

-- the body of the loop
pub plan_job : Surroundings → Factory → ℕ → Job → Slots → Jobs → Result Step
unfolding wanted plan_submission reservation
plan_job w f now j s current = do
  keep ← wanted w f j.context
  if not keep
      then ok (record {
        changes = (j.id, obsoleted, true) ∷ [];
        dispatch = [];
        slots = record s { freed = s.freed + one_if (remote_slot_held j) };
        current = current;
      })
      else if truthy j.remote_id
      then ok (record { changes = []; dispatch = j ∷ []; slots = s; current = current })
      else if is_full f s && not (remote_slot_held j)
      then ok (record {
        changes = (j.id, poll_later (now + f.poll_seconds), true) ∷ [];
        dispatch = [];
        slots = s;
        current = current;
      })
      else do
        metadata ← reservation f w.day j current
        ok (plan_submission w now j s current metadata)

-- the loop: the changes and the jobs to send, in the order of the wave
pub plan_wave : Surroundings → Factory → ℕ → Jobs → Slots → Jobs → Result (List LeasedChange × Jobs)
unfolding plan_job
plan_wave w f now [] s current = ok ([], [])
plan_wave w f now (j ∷ js) s current = do
  step ← plan_job w f now j s current
  (changes, dispatch) ← plan_wave w f now js step.slots step.current
  ok (step.changes ++ changes, step.dispatch ++ dispatch)

-- the handler of _checkpoint_before_http: whether the wave goes on
pub checkpointed : Jobs → Result (Jobs × Jobs) → Jobs × Result Bool
checkpointed table (ok (_, table')) = (table', ok true)
checkpointed table (err stale_lease) = (table, ok false)
checkpointed table (err e) = (table, err e)

-- `sum(_remote_slot_held(job) for job in current.values())`
abbrev pub count_held : Jobs → ℕ
count_held table = count_where remote_slot_held table

abbrev pub sent : Jobs → Result Bool → Result Jobs
sent dispatch (ok true) = ok dispatch
sent dispatch (ok false) = ok []
sent dispatch (err e) = err e

-- the changes of a wave with an uncertain job
pub defer_wave : String → ℕ → Jobs → List LeasedChange
defer_wave id until [] = []
defer_wave id until (j ∷ js) =
    (j.id, if str_eq j.id id then deferral until else no_changes, true) ∷ defer_wave id until js

pub after_deferral : Digest → String → ℕ → Artifacts → Jobs × Result Bool → Outcome Jobs
unfolding paused_state
after_deferral digest id now rows (table, ok true) =
    paused_state rows table [] (pause_unknown_acceptance digest id now rows)
after_deferral digest id now rows (table, ok false) = ((rows, table), ok [])
after_deferral digest id now rows (table, err e) = ((rows, table), err e)

module _ (json_bytes : Job → ℕ) (time : ℕ) where
  -- _checkpoint_before_http
  pub checkpoint_before_http : Factory → List LeasedChange → Jobs → Jobs × Result Bool
  unfolding checkpointed
  checkpoint_before_http f changes table =
      checkpointed table (update_leased json_bytes time f.owner changes none table)

  -- `if changes: if not _checkpoint_before_http(…): return []`
  pub dispatch_wave : Factory → Artifacts → Jobs → Result (List LeasedChange × Jobs) → Outcome Jobs
  unfolding checkpoint_before_http
  dispatch_wave f rows table (err e) = ((rows, table), err e)
  dispatch_wave f rows table (ok ([], dispatch)) = ((rows, table), ok dispatch)
  dispatch_wave f rows table (ok (c ∷ changes, dispatch)) =
      let (table', answer) = checkpoint_before_http f (c ∷ changes) table in
      ((rows, table'), sent dispatch answer)

  -- _prepare, on the leased jobs as they were claimed
  pub prepare_found :
      Digest → Surroundings → Factory → ℕ → Jobs → Option Job → Artifacts × Jobs → Outcome Jobs
  unfolding defer_wave after_deferral dispatch_wave plan_wave
  prepare_found digest w f now leased (some j) (rows, table) =
      after_deferral digest j.id now rows
        (checkpoint_before_http f (defer_wave j.id (now + 3600 * w.second) leased) table)
  prepare_found digest w f now leased none (rows, table) =
      dispatch_wave f rows table
        (plan_wave w f now leased (record { taken = count_held table; freed = 0 }) table)

  pub prepare_wave : Digest → Surroundings → Factory → ℕ → Jobs → Artifacts × Jobs → Outcome Jobs
  unfolding prepare_found is_uncertain
  prepare_wave digest w f now leased state =
      prepare_found digest w f now leased (find is_uncertain leased) state
