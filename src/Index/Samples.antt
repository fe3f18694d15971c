-- ===== src/Index/Samples.antt =====
-- A source that was revised: its graph and the job of it are withdrawn, and the theorem at that.
use parliament.Base.{All, ok, ℕ, String, ◌≡◌, refl, true, false, none, List, [], ◌∷◌}
use parliament.Value.{
  label_valid, Value, Fields, obj, arr, str, num, field, end, cons, nil, pos, null, validate_label,
}
use parliament.Job.{state_of_name, Job, JobState, planned, updated_job, leased, obsolete}
use parliament.Jobs.{read_job, Jobs, retire_jobs}
use parliament.Sources.{Source}
use parliament.Artifacts.{Artifact, Artifacts, mark, retire_artifacts}
use parliament.Retirement.{retire_results}
use parliament.Retirement.Withdrawn.{WhenCurrent}
use parliament.Index.{reconcile}
use parliament.Index.Reconciled.{ArtifactIsSupported, JobIsSupported, reconcile-AllSupported}

abbrev print : Value → String
print v = "f"

abbrev source : ℕ → Source
source generation = record {
  scope = "bill:1";
  fingerprint = "new";
  generation = generation;
  payload = null;
  active = true;
}

abbrev rests_on : String → ℕ → Fields
rests_on fingerprint generation =
    field "sources"
      (arr (
        cons
          (obj (
            field "fingerprint" (str fingerprint)
              (field "generation" (num (pos generation)) (field "scope" (str "bill:1") end))))
          nil))
      end

abbrev graph : String → String → ℕ → Artifact
graph key fingerprint generation = record {
  kind = "graph";
  key = key;
  version = "v1";
  dependency = obj (rests_on fingerprint generation);
  payload = null;
  current = true;
}

abbrev work : String → String → ℕ → JobState → Job
work id fingerprint generation state = record {
  id = id;
  kind = "extract";
  key = id;
  request = null;
  context = rests_on fingerprint generation;
  idempotency_key = id;
  state = state;
  remote_id = none;
  next_poll = 0;
  attempts = 1;
  result = null;
  error = none;
  metadata = obj end;
  lease_owner = none;
  lease_until = 0;
  created_at = 1;
  updated_at = 1;
}

abbrev bytes : Job → ℕ
bytes j = 100

abbrev now : List Source
now = source 2 ∷ []

abbrev rows : Artifacts
rows = graph "a" "old" 1 ∷ graph "b" "new" 2 ∷ graph "c" "new" 1 ∷ []

abbrev table : Jobs
table = work "x" "old" 1 planned ∷ work "y" "new" 2 planned ∷ []

-- the same content observed again has another generation
abbrev left_rows : Artifacts
left_rows = mark false (graph "a" "old" 1) ∷ graph "b" "new" 2 ∷ mark false (graph "c" "new" 1) ∷ []

abbrev left_table : Jobs
left_table =
    record (work "x" "old" 1 planned) { state = obsolete; updated_at = 9 }
    ∷ work "y" "new" 2 planned
    ∷ []

reconciled : reconcile print bytes 9 now (rows, table) ≡ ok (3, left_rows, left_table)
unfolding reconcile retire_results validate_label label_valid retire_jobs read_job leased
    updated_job state_of_name retire_artifacts
reconciled = refl

reconcile-AllSupported_example :
    All (WhenCurrent (ArtifactIsSupported print now)) left_rows
    × All (JobIsSupported print now) left_table
reconcile-AllSupported_example =
    reconcile-AllSupported print bytes 9 now rows table 3 left_rows left_table (refl, (refl, tt))
      reconciled
