-- ===== src/Recovery/Samples.antt =====
-- Two requests of unknown acceptance behind a pause, and the theorems at them.
use parliament.Base.{◌++◌, select, ok, ℕ, ◌≤◌, String, ◌≡◌, refl, true, false, none, some, [], ◌∷◌}
use parliament.Value.{
  Fields, obj, str, num, bool, field, end, pos, null, has_credentials, validate_label, label_valid,
}
use parliament.Value.Objects.{put_field, drop_field}
use parliament.Job.{truthy, Job, polling, deferred, state_of_name, updated_job}
use parliament.Jobs.{write_job, Jobs, read_job, update_job}
use parliament.Artifacts.{
  Artifacts, put_artifact, get_artifact, invalidate_artifact, is_current, is_logical, is_version,
}
use parliament.Execution.Wave.{is_uncertain, Digest, pause_payload}
use parliament.Recovery.{
  defer_unknown_acceptance, first_of, recoverable, Pass, recover_unknown_acceptance,
  drain_unknown_acceptance,
}
use parliament.Recovery.Paused.{standing_pause, owed_pause, recover_unknown_acceptance-owed}
use parliament.Recovery.Recorded.{Recorded, recover_unknown_acceptance-Recorded}
use parliament.Recovery.Draining.{Recoveries, Stops, drain_unknown_acceptance-Recoveries}

abbrev work : String → Job
work id = record {
  id = id;
  kind = "extract";
  key = id;
  request = obj end;
  context = end;
  idempotency_key = id;
  state = deferred;
  remote_id = none;
  next_poll = 0;
  attempts = 1;
  result = null;
  error = some "inference_acceptance_unknown";
  metadata =
      obj (field "completion_uncertain" (bool true) (field "expected_model" (str "m@1") end));
  lease_owner = none;
  lease_until = 0;
  created_at = 1;
  updated_at = 1;
}

abbrev answer : Fields
answer =
    field "model_repository" (str "m")
      (field "model_revision" (str "1") (field "ready" (bool true) end))

abbrev pass : ℕ → Pass
pass n = record {
  ready = ok answer;
  submit = λ body key. ok "r1";
  scanning = λ j. 20;
  pausing = 21;
  polling_from = 22;
  updating = 23;
  pausing_again = 24;
}

abbrev bytes : Job → ℕ
bytes j = 100

abbrev digest : Digest
digest kind key dependency payload = "v"

abbrev before : Artifacts × Jobs
before = ([], work "a" ∷ [])

abbrev settled : Jobs
settled =
    record (work "a") {
      state = polling;
      remote_id = some "r1";
      next_poll = 22;
      error = none;
      metadata =
          obj (field "completion_uncertain" (bool false) (field "expected_model" (str "m@1") end));
      updated_at = 23;
    }
    ∷ []

abbrev pause_withdrawn : Artifacts
pause_withdrawn =
    record {
      kind = "control";
      key = "pause";
      version = "v";
      dependency = obj end;
      payload = obj (
          field "at" (num (pos 21))
            (field "jobId" (str "a") (field "reason" (str "inference_acceptance_unknown") end)));
      current = false;
    }
    ∷ []

recovered :
    recover_unknown_acceptance bytes digest "m@1" (pass 0) before
    ≡ ((pause_withdrawn, settled), ok true)
unfolding recover_unknown_acceptance get_artifact put_artifact validate_label label_valid update_job
    write_job read_job updated_job state_of_name has_credentials put_field drop_field
    invalidate_artifact is_logical is_current
recovered = refl

drained :
    drain_unknown_acceptance bytes digest "m@1" pass 5 before ≡ ((pause_withdrawn, settled), ok 1)
unfolding drain_unknown_acceptance get_artifact put_artifact validate_label label_valid update_job
    write_job read_job updated_job state_of_name has_credentials put_field drop_field
    invalidate_artifact is_logical is_current
drained = refl

recover_unknown_acceptance-Recorded_example : Recorded (work "a" ∷ []) settled
recover_unknown_acceptance-Recorded_example =
    recover_unknown_acceptance-Recorded bytes digest "m@1" (pass 0) [] pause_withdrawn
      (work "a" ∷ []) settled recovered

drain_unknown_acceptance-Recoveries_example :
    (1 ≤ 5)
    × (5 ≤ 64)
    × ((t : Artifacts × Jobs) × Recoveries bytes digest "m@1" pass 0 before 1 t
        × Stops bytes digest "m@1" pass 5 1 t (pause_withdrawn, settled))
drain_unknown_acceptance-Recoveries_example =
    drain_unknown_acceptance-Recoveries bytes digest "m@1" pass 5 1 before
      (pause_withdrawn, settled) drained

-- with a second job the pause goes over to it
abbrev pause_moved : Artifacts
pause_moved =
    record {
      kind = "control";
      key = "pause";
      version = "a";
      dependency = obj end;
      payload = pause_payload "a" 21;
      current = false;
    }
    ∷ record {
      kind = "control";
      key = "pause";
      version = "b";
      dependency = obj end;
      payload = pause_payload "b" 24;
      current = true;
    }
    ∷ []

abbrev version_at : Digest
version_at kind key dependency (obj (field at n (field name (str id) rest))) = id
version_at kind key dependency payload = "v"

moved :
    recover_unknown_acceptance bytes version_at "m@1" (pass 0) ([], work "a" ∷ work "b" ∷ [])
    ≡ ((pause_moved, settled ++ work "b" ∷ []), ok true)
unfolding recover_unknown_acceptance get_artifact put_artifact validate_label label_valid update_job
    write_job read_job updated_job state_of_name has_credentials put_field drop_field
    invalidate_artifact is_logical is_current is_version
moved = refl

recover_unknown_acceptance-owed_example :
    standing_pause pause_moved
    ≡ owed_pause 24 (first_of (select (recoverable "m@1" (λ j. 20)) (settled ++ work "b" ∷ [])))
recover_unknown_acceptance-owed_example =
    recover_unknown_acceptance-owed bytes version_at "m@1" (pass 0) [] pause_moved
      (work "a" ∷ work "b" ∷ []) (settled ++ work "b" ∷ []) tt moved

-- a job with a remote id is not deferred
deferral_run :
    defer_unknown_acceptance bytes digest "m@1" 10 20 "worker_1" 20
      (record (work "a") { remote_id = some "r1" })
      before
    ≡ (before, ok false)
unfolding defer_unknown_acceptance is_uncertain truthy
deferral_run = refl
