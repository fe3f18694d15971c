-- ===== src/Execution/Fixtures.antt =====
-- A factory, and jobs that its worker has leased, for the samples.
use parliament.Base.{ℕ, String, Option, none, some}
use parliament.Value.{Value, obj, arr, str, field, end, cons, nil, null}
use parliament.Job.{Job, JobState}
use parliament.Execution.{Factory}
use parliament.Execution.Wave.{Digest}

abbrev pub factory : Factory
factory = record {
  owner = "worker_1";
  model_signature = "m@1";
  concurrency = 2;
  daily_jobs = 500;
  daily_tokens = 2000000;
  queue_capacity = 256;
  poll_seconds = 30;
}

abbrev pub request : Value
request = obj (field "messages" (arr (cons (obj (field "content" (str "go") end)) nil)) end)

abbrev pub work : String → JobState → Option String → Job
work id state remote_id = record {
  id = id;
  kind = "extract";
  key = id;
  request = request;
  context = field "model_signature" (str "m@1") end;
  idempotency_key = id;
  state = state;
  remote_id = remote_id;
  next_poll = 0;
  attempts = 0;
  result = null;
  error = none;
  metadata = obj end;
  lease_owner = some "worker_1";
  lease_until = 900;
  created_at = 1;
  updated_at = 1;
}

abbrev pub bytes : Job → ℕ
bytes j = 100

abbrev pub digest : Digest
digest kind key dependency payload = "v"
