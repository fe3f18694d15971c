-- ===== src/Receipts/Samples.antt =====
-- A wave of two responses, and the theorem at it.
use parliament.Base.{All, ok, ℕ, String, ◌≡◌, refl, true, false, none, some, List, [], ◌∷◌}
use parliament.Value.{Value, obj, str, bool, field, end, null, has_credentials, store_clock}
use parliament.Job.{Job, submitting, polling, state_of_name, updated_job, require_lease}
use parliament.Jobs.{Jobs, read_job, update_leased}
use parliament.Execution.{Factory}
use parliament.Receipts.{Response, save_receipts}
use parliament.Receipts.Rows.{AllSaved}
use parliament.Receipts.Saved.{save_receipts-AllSaved}

abbrev factory : Factory
factory = record {
  owner = "worker_1";
  model_signature = "m@1";
  concurrency = 2;
  daily_jobs = 500;
  daily_tokens = 2000000;
  queue_capacity = 256;
  poll_seconds = 30;
}

abbrev work : String → Job
work id = record {
  id = id;
  kind = "extract";
  key = id;
  request = null;
  context = end;
  idempotency_key = id;
  state = submitting;
  remote_id = none;
  next_poll = 5;
  attempts = 1;
  result = null;
  error = none;
  metadata = obj (field "completion_uncertain" (bool true) end);
  lease_owner = some "worker_1";
  lease_until = 900;
  created_at = 1;
  updated_at = 5;
}

abbrev response : String → String → Response
response state id = record {
  state = some state;
  request_id = some id;
  model_metadata = field "revision" (str "1") end;
}

abbrev responses : List (Job × Response)
responses = (work "a", response "queued" "r1") ∷ (work "b", response "completed" "r2") ∷ []

abbrev table : Jobs
table = work "a" ∷ work "b" ∷ []

abbrev metadata : Value
metadata = obj (field "completion_uncertain" (bool false) (field "revision" (str "1") end))

abbrev done : List (Job × Response)
done =
    (record (work "b") { remote_id = some "r2"; metadata = metadata }, response "completed" "r2")
    ∷ []

-- the first gives its lease back, the second keeps it until its content is validated
abbrev saved : Jobs
saved =
    record (work "a") {
      state = polling;
      remote_id = some "r1";
      next_poll = 40;
      metadata = metadata;
      lease_owner = none;
      lease_until = 0;
      updated_at = 11;
    }
    ∷ record (work "b") { remote_id = some "r2"; metadata = metadata; updated_at = 11 }
    ∷ []

abbrev bytes : Job → ℕ
bytes j = 100

saved_run : save_receipts bytes 11 factory 10 responses table ≡ ok (done, saved)
unfolding save_receipts update_leased store_clock require_lease read_job updated_job state_of_name
    has_credentials
saved_run = refl

table-Claimed : All (λ p. read_job p.0.id table ≡ some p.0) responses
unfolding read_job
table-Claimed = (refl, (refl, tt))

save_receipts-AllSaved_example : AllSaved saved responses
save_receipts-AllSaved_example =
    save_receipts-AllSaved bytes 11 factory 10 responses done table saved (refl, (refl, tt))
      table-Claimed saved_run
