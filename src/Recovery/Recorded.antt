-- ===== src/Recovery/Recorded.antt =====
-- recovery.py, recover_unknown_acceptance: what a pass that returns True has recorded.
use parliament.Base.{
  ◌∙◌, &&-eq-true, select, Result, ok, err, ℕ, String, ◌≡◌, refl, sym, ap, subst, Bool, true, false,
  Option, none, some, str_eq,
}
use parliament.Value.{Value, str}
use parliament.Job.{
  Job, JobState, polling, planned, submitting, completed, failed, obsolete, deferred, same_state,
  truthy, state_of_name,
}
use parliament.Job.Update.{updated_job-state, updated_job-polling}
use parliament.Jobs.{Jobs, read_job, update_job}
use parliament.Jobs.Holding.{update_job-row}
use parliament.Artifacts.{Artifacts}
use parliament.Execution.Wave.{Outcome, Digest, paused_state}
use parliament.Recovery.Passed.{Passed, submitted, resumed, recover_unknown_acceptance-Passed}
use parliament.Recovery.{
  Pass, recoverable, payload_field, prior_job, is_settled, accepted, pause_for,
  recover_unknown_acceptance,
}

-- One job is polled under its remote id, and every other job is what it was.
pub record Recorded (table table' : Jobs) : Type 0 where
  pub id : String
  pub job : Job
  pub row : read_job id table' ≡ some job
  pub polled : job.state ≡ polling
  pub remote : truthy job.remote_id ≡ true
  pub others : (x : String) → str_eq x id ≡ false → read_job x table' ≡ read_job x table

-- what an outcome leaves in the table of jobs
abbrev table_of : {A : Type 0} → Outcome A → Jobs
table_of o = o.0.1

paused_state-table :
    (rows : Artifacts) (table : Jobs) (r : Result Artifacts)
    → table_of (paused_state rows table true r) ≡ table
unfolding paused_state
paused_state-table rows table (ok x) = refl
paused_state-table rows table (err x) = refl

pause_for-table :
    (digest : Digest) (o : Option Job) (now : ℕ) (rows : Artifacts) (table : Jobs)
    → table_of (pause_for digest o now rows table) ≡ table
unfolding pause_for
pause_for-table digest none now rows table = refl
pause_for-table digest (some j) now rows table = paused_state-table rows table _

same_state-polling : (s : JobState) → same_state s polling ≡ true → s ≡ polling
unfolding same_state
same_state-polling polling h = refl
same_state-polling planned h = cc
same_state-polling submitting h = cc
same_state-polling completed h = cc
same_state-polling failed h = cc
same_state-polling obsolete h = cc
same_state-polling deferred h = cc

is_settled-job :
    (o : Option Job)
    → is_settled o ≡ true
    → (j : Job) × (o ≡ some j) × (j.state ≡ polling) × (truthy j.remote_id ≡ true)
is_settled-job none h = cc
is_settled-job (some j) h =
    let (r, p) = &&-eq-true (truthy j.remote_id) (same_state j.state polling) h in
    (j, refl, same_state-polling j.state p, r)

prior_job-Recorded :
    (v : Option Value) (table : Jobs) → is_settled (prior_job v table) ≡ true → Recorded table table
prior_job-Recorded (some (str id)) table h =
    let (j, row, p, r) = is_settled-job (read_job id table) h in
    record { id = id; job = j; row = row; polled = p; remote = r; others = λ x ne. refl }
prior_job-Recorded none table h = cc
prior_job-Recorded (some _) table h = cc

updated-Recorded :
    (json_bytes : Job → ℕ) (p : Pass) (j : Job) (remote_id : String) (table table₁ : Jobs)
    → update_job json_bytes p.updating j.id (accepted p.polling_from j remote_id) table ≡ ok table₁
    → Recorded table table₁
unfolding state_of_name
updated-Recorded json_bytes p j remote_id table table₁ u =
    let c = accepted p.polling_from j remote_id in
    let k = update_job-row json_bytes p.updating j.id c table table₁ u in
    let s = updated_job-state k.old c p.updating "polling" polling k.updated refl refl in
    record {
      id = j.id;
      job = k.new;
      row = k.row;
      polled = s;
      remote = updated_job-polling k.old c p.updating k.updated s;
      others = k.others;
    }

-- After a pass that returns True one job is polled under a remote id that is stored, and every other
-- job is what it was.
pub recover_unknown_acceptance-Recorded :
    (json_bytes : Job → ℕ) (digest : Digest) (signature : String) (p : Pass)
    (rows rows' : Artifacts) (table table' : Jobs)
    → recover_unknown_acceptance json_bytes digest signature p (rows, table)
      ≡ ((rows', table'), ok true)
    → Recorded table table'
recover_unknown_acceptance-Recorded json_bytes digest signature p rows rows' table table' h =
    passed
      (recover_unknown_acceptance-Passed json_bytes digest signature p rows rows' table table' h)
  where
    left :
        (o : Option Job) (now : ℕ) (rows₁ : Artifacts) (table₁ : Jobs)
        → pause_for digest o now rows₁ table₁ ≡ ((rows', table'), ok true)
        → table₁ ≡ table'
    left o now rows₁ table₁ k =
        sym (pause_for-table digest o now rows₁ table₁) ∙ ap (λ (y : Outcome Bool). table_of y) k

    passed :
        Passed json_bytes digest signature p
          (select (recoverable signature p.scanning) table)
          rows
          rows'
          table
          table'
        → Recorded table table'
    passed (submitted j remote_id rows₁ table₁ _ _ _ u k) =
        subst (Recorded table) (left _ p.pausing_again _ table₁ k)
          (updated-Recorded json_bytes p j remote_id table table₁ u)
    passed (resumed pause _ before k) =
        subst (Recorded table) (left _ p.pausing_again _ table k)
          (prior_job-Recorded (payload_field "jobId" pause) table before)
