-- ===== src/Retirement/Samples.antt =====
-- A retirement on small tables, and the theorem at it.
use parliament.Base.{ok, ℕ, String, ◌≡◌, refl, true, false, none, [], ◌∷◌, map}
use parliament.Value.{null, end, label_valid, validate_label, has_credentials}
use parliament.Job.{
  Job, planned, obsolete, state_of_name, same_state, transition, updated_job, leased, truthy,
}
use parliament.Jobs.{Jobs, retire_jobs, read_job}
use parliament.Jobs.History.{Reach}
use parliament.Artifacts.{Artifact, Artifacts, mark, retire_artifacts}
use parliament.Artifacts.History.{content}
use parliament.Retirement.{retire_results, retire_results-keeps}

abbrev bytes : Job → ℕ
bytes j = 500

abbrev digest : String → String → String
digest kind key = key

abbrev report : Artifact
report = record {
  kind = "report";
  key = "k";
  version = "one";
  dependency = null;
  payload = null;
  current = true;
}

abbrev job : Job
job = record {
  id = "a";
  kind = "extract";
  key = "a";
  request = null;
  context = end;
  idempotency_key = "a";
  state = planned;
  remote_id = none;
  next_poll = 0;
  attempts = 0;
  result = null;
  error = none;
  metadata = null;
  lease_owner = none;
  lease_until = 0;
  created_at = 1;
  updated_at = 1;
}

abbrev rows : Artifacts
rows = report ∷ []

abbrev table : Jobs
table = job ∷ []

abbrev rows_after : Artifacts
rows_after = mark false report ∷ []

abbrev table_after : Jobs
table_after = record job { state = obsolete; updated_at = 9 } ∷ []

retire_run :
    retire_results bytes 9 (("report", "k") ∷ ("report", "k") ∷ []) ("a" ∷ []) (rows, table)
    ≡ ok (2, rows_after, table_after)
unfolding retire_results retire_jobs retire_artifacts label_valid validate_label state_of_name
    same_state transition updated_job leased truthy has_credentials read_job
retire_run = refl

retire_results-keeps_example :
    (map content rows_after ≡ map content rows) × Reach bytes digest table table_after
retire_results-keeps_example =
    retire_results-keeps bytes digest 9 (("report", "k") ∷ ("report", "k") ∷ []) ("a" ∷ []) rows
      table 2 rows_after table_after retire_run
