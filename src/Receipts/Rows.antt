-- ===== src/Receipts/Rows.antt =====
-- receipts.py, save_receipts: the row of one job after its receipt.
use parliament.Base.{All, ok, ℕ, String, ◌≡◌, refl, ◌∙◌, true, Option, none, some, List, map}
use parliament.Job.{Job, JobState, polling, updated_job, state_of_name}
use parliament.Job.Update.{
  updated_job-state, updated_job-same_state, updated_job-remote, updated_job-lease,
  updated_job-until,
}
use parliament.Jobs.{Jobs, read_job, release_job}
use parliament.Receipts.{
  Response, Receipt, running, failed, receipt_of, request_or, receipt_fields, releases,
}

-- the state that a receipt leaves, and the owner of the lease
abbrev pub state_after : Job → Receipt → JobState
state_after j running = polling
state_after j failed = JobState.failed
state_after j Receipt.completed = j.state

abbrev pub owner_after : Job → Receipt → Option String
owner_after j Receipt.completed = j.lease_owner
owner_after j _ = none

-- when the lease that a receipt leaves ends; 0 without a lease
abbrev pub until_after : Job → Receipt → ℕ
until_after j Receipt.completed = j.lease_until
until_after j _ = 0

-- what the table holds of a job with a response
pub record SavedRow (table : Jobs) (j : Job) (r : Response) : Type 0 where
  pub receipt : Receipt
  pub classified : receipt_of r.state ≡ ok receipt
  pub row : Job
  pub found : read_job j.id table ≡ some row
  pub remote_id : row.remote_id ≡ request_or r.request_id j.remote_id
  pub state : row.state ≡ state_after j receipt
  pub owner : row.lease_owner ≡ owner_after j receipt
  pub until : row.lease_until ≡ until_after j receipt

abbrev pub jobs_of : List (Job × Response) → Jobs
jobs_of = map (λ p. p.0)

abbrev pub AllSaved : Jobs → List (Job × Response) → Type 0
AllSaved table = All (λ p. SavedRow table p.0 p.1)

module _ (json_bytes : Job → ℕ) (owner : String) (t : ℕ) where
  pub receipt-SavedRow :
      (until : ℕ) (j : Job) (r : Response) (k : Receipt) (new : Job) (table : Jobs)
      → receipt_of r.state ≡ ok k
      → updated_job j (receipt_fields until j r k) t ≡ ok new
      → read_job j.id table ≡ some (release_job (releases k) new)
      → SavedRow table j r
  unfolding receipt_fields state_of_name
  receipt-SavedRow until j r running new table c u f = record {
    receipt = running;
    classified = c;
    row = release_job true new;
    found = f;
    remote_id = updated_job-remote j (receipt_fields until j r running) t u;
    state = updated_job-state j (receipt_fields until j r running) t "polling" polling u refl refl;
    owner = refl;
    until = refl;
  }
  receipt-SavedRow until j r failed new table c u f = record {
    receipt = failed;
    classified = c;
    row = release_job true new;
    found = f;
    remote_id = updated_job-remote j (receipt_fields until j r failed) t u;
    state =
        updated_job-state j (receipt_fields until j r failed) t "failed" JobState.failed u refl
          refl;
    owner = refl;
    until = refl;
  }
  receipt-SavedRow until j r Receipt.completed new table c u f = record {
    receipt = Receipt.completed;
    classified = c;
    row = new;
    found = f;
    remote_id = updated_job-remote j (receipt_fields until j r Receipt.completed) t u;
    state = updated_job-same_state j (receipt_fields until j r Receipt.completed) t u refl;
    owner = updated_job-lease j (receipt_fields until j r Receipt.completed) t u;
    until = updated_job-until j (receipt_fields until j r Receipt.completed) t u;
  }

pub SavedRow-kept :
    (table table' : Jobs) (j : Job) (r : Response)
    → read_job j.id table' ≡ read_job j.id table
    → SavedRow table j r
    → SavedRow table' j r
SavedRow-kept table table' j r e s = record {
  receipt = s.receipt;
  classified = s.classified;
  row = s.row;
  found = e ∙ s.found;
  remote_id = s.remote_id;
  state = s.state;
  owner = s.owner;
  until = s.until;
}
