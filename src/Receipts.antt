-- ===== src/Receipts.antt =====
-- worker/src/parliament_worker/graphrag/receipts.py, save_receipts: one wave of decoded responses is
-- recorded in one transaction, before any content is validated. `now` is the reading of the function
-- and `time` the later one of the store.
pub mod Rows
pub mod Saved
mod Samples
use parliament.Base.{
  ltb, leb, ◌==◌, if◌then◌else◌, ltb→lt, lt→ltb, leb→le, le→leb, Bool-cases, Option-cases,
  str_eq_refl, opt_eq, opt_eq_sound, &&-eq-true, ||-eq-false, &&-false, some-eq, ok-injective,
  str_eq_comm, length, take, select, any, find, is_nil, All, length-append, length-take-le,
  All-append, All-map, Error, Result, ok, err, ◌>>=◌, ◌>>◌, require, >>=-eq-ok, >>-eq-ok,
  require-eq-ok, ℕ, zero, suc, ◌+◌, ◌-◌, ◌*◌, ◌≤◌, ◌<◌, min, max, String, ◌≡◌, refl, sym, ap, ◌∙◌,
  subst, ◌≢◌, ◌↔◌, ◌⊎◌, inl, inr, Bool, true, false, ◌&&◌, ◌||◌, not, Option, none, some, List, [],
  ◌∷◌, ◌++◌, map, arith, str_eq, str_eq_iff, unrecognized_remote_state,
}
use parliament.Value.{Value, Fields, obj, bool, ticks}
use parliament.Value.Objects.{fields_of, put_field, merge_fields}
use parliament.Job.{Job, Changes, no_changes, given, reading_or, state_of_name}
use parliament.Jobs.{Jobs, update_leased}
use parliament.Execution.{Factory}
use parliament.Execution.Wave.{LeasedChange}

-- what is read of a response: its state, the request id and `_modelMetadata`
pub record Response : Type 0 where
  pub state : Option String
  pub request_id : Option String
  pub model_metadata : Fields

-- what becomes of a job: it is still running there, it has failed there, or it has completed
pub data Receipt : Type 0 where
  running failed completed : Receipt

pub classified : String → Option Receipt
classified s =
    if str_eq s "received" || str_eq s "queued" || str_eq s "running"
    then some running
    else if str_eq s "failed" || str_eq s "cancelled"
    then some failed
    else if str_eq s "completed"
    then some completed
    else none

-- the test on the state of a response
pub receipt_of : Option String → Result Receipt
unfolding classified
receipt_of none = err unrecognized_remote_state
receipt_of (some s) = named (classified s)
  where
    named : Option Receipt → Result Receipt
    named none = err unrecognized_remote_state
    named (some r) = ok r

-- `response.get("request_id") or job["remote_id"]`
abbrev pub request_or : Option String → Option String → Option String
request_or none old = old
request_or (some s) old = if str_eq s "" then old else some s

-- `{**job["metadata"], **response.get("_modelMetadata", {}), "completion_uncertain": False}`
abbrev pub receipt_metadata : Job → Response → Value
receipt_metadata j r = obj (
    put_field "completion_uncertain" (bool false)
      (merge_fields (fields_of j.metadata) r.model_metadata))

-- the fields of every receipt
abbrev pub common_fields : Job → Response → Changes
common_fields j r = record no_changes {
  remote_id = some (request_or r.request_id j.remote_id);
  metadata = some (receipt_metadata j r);
}

pub receipt_fields : ℕ → Job → Response → Receipt → Changes
receipt_fields until j r running = record (common_fields j r) {
  state = some "polling";
  next_poll = some (ticks until);
  error = some none;
}
receipt_fields until j r failed = record (common_fields j r) {
  state = some "failed";
  error = some (some "remote_inference_failed");
}
receipt_fields until j r completed = common_fields j r

-- `{**job, **fields}` of a completed one
abbrev pub with_receipt : Job → Response → Job
with_receipt j r = record j {
  remote_id = request_or r.request_id j.remote_id;
  metadata = receipt_metadata j r;
}

-- `state != "completed"`: the lease is given back unless the content is still to be validated
abbrev pub releases : Receipt → Bool
releases completed = false
releases _ = true

abbrev pub add_completed : Job → Response → Receipt → List (Job × Response) → List (Job × Response)
add_completed j r completed rest = (with_receipt j r, r) ∷ rest
add_completed j r _ rest = rest

-- the loop: the changes and the completed jobs, in the order of arrival
pub receipt_loop : ℕ → List (Job × Response) → Result (List LeasedChange × List (Job × Response))
unfolding receipt_of receipt_fields put_field merge_fields
receipt_loop until [] = ok ([], [])
receipt_loop until ((j, r) ∷ rest) = do
  k ← receipt_of r.state
  (changes, done) ← receipt_loop until rest
  ok ((j.id, receipt_fields until j r k, releases k) ∷ changes, add_completed j r k done)

module _ (json_bytes : Job → ℕ) (time : ℕ) where
  -- `if changes: factory.store.update_leased(…)`
  pub commit_receipts :
      Factory
      → List (Job × Response)
      → List LeasedChange
      → Jobs
      → Result (List (Job × Response) × Jobs)
  commit_receipts f done [] table = ok (done, table)
  commit_receipts f done (c ∷ changes) table = do
    (_, table') ← update_leased json_bytes time f.owner (c ∷ changes) none table
    ok (done, table')

  -- save_receipts: the completed jobs, and the table
  pub save_receipts :
      Factory → ℕ → List (Job × Response) → Jobs → Result (List (Job × Response) × Jobs)
  unfolding receipt_loop commit_receipts
  save_receipts f now responses table = do
    (changes, done) ← receipt_loop (now + f.poll_seconds) responses
    commit_receipts f done changes table
