-- ===== src/Execution/Wave/Holding.antt =====
-- execution.py, _remote_slot_held: which rows of the table hold a remote slot, before and after an
-- update under the lease.
use parliament.Base.{ok, ℕ, ◌≡◌, refl, ap, ◌∙◌, Bool, true, false, ◌||◌, none}
use parliament.Value.{Fields, bool}
use parliament.Value.Objects.{get-put_field}
use parliament.Job.{Job, Changes, submitting, obsolete, truthy, updated_job, state_of_name, given}
use parliament.Job.Update.{
  updated_job-state, updated_job-same_state, updated_job-remote, updated_job-metadata,
}
use parliament.Jobs.{release_job, obsoleted}
use parliament.Execution.{completion_uncertain, slot_state, remote_slot_held}
use parliament.Execution.Wave.{submission}

pub held_released :
    (release : Bool) (j : Job) → remote_slot_held (release_job release j) ≡ remote_slot_held j
unfolding remote_slot_held
held_released true j = refl
held_released false j = refl

held_parts :
    (new j : Job)
    → new.state ≡ j.state
    → new.remote_id ≡ j.remote_id
    → new.metadata ≡ j.metadata
    → remote_slot_held new ≡ remote_slot_held j
unfolding remote_slot_held completion_uncertain
held_parts new j s r m = rw (s, r, m) refl

-- An update that gives no state, remote id or metadata leaves the slot as it is.
pub updated-same_slot :
    (j : Job) (c : Changes) (t : ℕ) (new : Job)
    → c.state ≡ none
    → c.remote_id ≡ none
    → c.metadata ≡ none
    → updated_job j c t ≡ ok new
    → remote_slot_held new ≡ remote_slot_held j
updated-same_slot j c t new s r m h =
    held_parts new j (updated_job-same_state j c t h s)
      (updated_job-remote j c t h ∙ ap (λ o. given o j.remote_id) r)
      (updated_job-metadata j c t h ∙ ap (λ o. given o j.metadata) m)

-- An obsolete job holds none, and a submission holds one.
pub obsoleted-no_slot :
    (j : Job) (t : ℕ) (new : Job)
    → updated_job j obsoleted t ≡ ok new
    → remote_slot_held new ≡ false
unfolding remote_slot_held slot_state state_of_name
obsoleted-no_slot j t new h =
    rw (updated_job-state j obsoleted t "obsolete" obsolete h refl refl) refl

pub submission-slot :
    (now : ℕ) (j : Job) (metadata : Fields) (t : ℕ) (new : Job)
    → updated_job j (submission now j metadata) t ≡ ok new
    → remote_slot_held new ≡ true
unfolding remote_slot_held slot_state state_of_name completion_uncertain
submission-slot now j metadata t new h =
    rw
      (
        updated_job-state j (submission now j metadata) t "submitting" submitting h refl refl,
        updated_job-metadata j (submission now j metadata) t h,
        get-put_field "completion_uncertain" (bool true) metadata,
      )
      (or_true (truthy new.remote_id))
  where
    or_true : (b : Bool) → (b || true) ≡ true
    or_true true = refl
    or_true false = refl
