-- ===== src/Execution/Deferral/Samples.antt =====
-- A call that failed because the server was busy, and the theorems at it.
use parliament.Base.{ok, ◌≡◌, refl, true, false, none, some, [], ◌∷◌, arith}
use parliament.Value.{store_clock, Value, obj, num, field, end, pos, has_credentials}
use parliament.Job.{Job, polling, deferred, state_of_name, updated_job, require_lease, due}
use parliament.Jobs.{release, Jobs, read_job}
use parliament.Artifacts.{Artifacts}
use parliament.Execution.Deferral.{InferenceError, inference_error}
use parliament.Execution.Deferral.Delays.{inference_error-defers}
use parliament.Execution.Fixtures.{factory, work, bytes, digest}

abbrev busy : InferenceError
busy = record {
  category = "inference_busy";
  retryable = true;
  uncertain = false;
  status = some 503;
  retry_after = 0;
}

abbrev one_job : Jobs
one_job = work "a" polling (some "r1") ∷ []

abbrev one_left : Artifacts × Jobs
one_left = (
  [],
  record (work "a" polling (some "r1")) {
    state = deferred;
    error = some "inference_busy";
    next_poll = 55;
    metadata = obj (
        field "completion_uncertain" (Value.bool false) (field "error_status" (num (pos 503)) end));
    lease_owner = none;
    lease_until = 0;
    updated_at = 6;
  }
      ∷ [],
)

failed_call :
    inference_error bytes 6 digest 10 factory 5 (work "a" polling (some "r1")) busy ([], one_job)
    ≡ (one_left, ok tt)
unfolding inference_error release store_clock require_lease read_job updated_job state_of_name
    has_credentials
failed_call = refl

inference_error-defers_example :
    (k : Job) × (read_job "a" one_left.1 ≡ some k)
    × (k.state ≡ deferred)
    × (k.lease_owner ≡ none)
    × (due k 54 ≡ false)
inference_error-defers_example =
    inference_error-defers bytes 6 digest 10 factory 5 (work "a" polling (some "r1")) busy []
      one_job one_left 54 refl failed_call (omega arith)
