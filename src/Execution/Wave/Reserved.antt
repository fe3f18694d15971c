-- ===== src/Execution/Wave/Reserved.antt =====
-- execution.py, _prepare: whatever is sent is wanted, and a submission is recorded before it is sent.
use parliament.Base.{
  Bool-cases, ||-eq-false, str_eq_comm, ok-injective, All, All-append, ok, >>=-eq-ok, ℕ, ◌+◌, ◌*◌,
  String, ◌≡◌, refl, sym, ap, ◌∙◌, subst, ◌⊎◌, inl, inr, Bool, true, false, ◌&&◌, not, Option, none,
  some, List, [], ◌∷◌, ◌++◌, str_eq,
}
use parliament.Value.{Fields, bool}
use parliament.Value.Objects.{get-put_field}
use parliament.Job.{Job, Changes, submitting, truthy, updated_job, state_of_name}
use parliament.Job.Update.{updated_job-state, updated_job-metadata}
use parliament.Job.Succession.{updated_job-Succeeds}
use parliament.Jobs.{Jobs, read_job, update_leased_loop, obsoleted}
use parliament.Jobs.Rows.{Unique, has_id}
use parliament.Jobs.Lookups.{Stands}
use parliament.Jobs.Unnamed.{Unnamed, update_leased_loop-keeps}
use parliament.Jobs.Turns.{update_leased_loop-Turn}
use parliament.Artifacts.{Artifacts}
use parliament.Execution.{Factory, completion_uncertain, remote_slot_held, reservation}
use parliament.Execution.Wave.Committing.{prepare_wave-dispatches}
use parliament.Execution.Wave.{
  count_held, LeasedChange, submission, poll_later, work_limited, Slots, Step, is_full,
  Surroundings, wanted, plan_submission, plan_job, plan_wave, prepare_wave, prepared, Digest,
}

-- The request stands in the table as one whose acceptance is unknown.
pub record IsRecorded (table : Jobs) (j : Job) : Type 0 where
  pub row : Job
  pub found : read_job j.id table ≡ some row
  pub state : row.state ≡ submitting
  pub uncertain : completion_uncertain row ≡ true
  pub request : row.request ≡ j.request
  pub idempotency_key : row.idempotency_key ≡ j.idempotency_key

-- A job that may be sent: it is wanted, and it is polled or its submission is recorded.
abbrev pub IsReserved : Surroundings → Factory → Jobs → Job → Type 0
IsReserved w f table j =
    (wanted w f j.context ≡ ok true) × ((truthy j.remote_id ≡ true) ⊎ IsRecorded table j)

-- what the plan for one job sends
data Sends (w : Surroundings) (f : Factory) (now : ℕ) (j : Job) (step : Step) : Type 0 where
  nothing :
      (c : Changes) (release : Bool)
      → step.changes ≡ (j.id, c, release) ∷ []
      → step.dispatch ≡ []
      → Sends w f now j step
  polls :
      step.changes ≡ []
      → step.dispatch ≡ j ∷ []
      → wanted w f j.context ≡ ok true
      → truthy j.remote_id ≡ true
      → Sends w f now j step
  submits :
      (metadata : Fields)
      → step.changes ≡ (j.id, submission now j metadata, false) ∷ []
      → step.dispatch ≡ prepared now j metadata ∷ []
      → wanted w f j.context ≡ ok true
      → Sends w f now j step

plan_submission-Sends :
    (w : Surroundings) (f : Factory) (now : ℕ) (j : Job) (s : Slots) (current : Jobs)
    (metadata : Option Fields)
    → wanted w f j.context ≡ ok true
    → Sends w f now j (plan_submission w now j s current metadata)
unfolding plan_submission
plan_submission-Sends w f now j s current none k =
    nothing (work_limited (now + 60 * w.second)) true refl refl
plan_submission-Sends w f now j s current (some metadata) k = submits metadata refl refl k

plan_job-Sends :
    (w : Surroundings) (f : Factory) (now : ℕ) (j : Job) (s : Slots) (current : Jobs) {step : Step}
    → plan_job w f now j s current ≡ ok step
    → Sends w f now j step
unfolding plan_job
plan_job-Sends w f now j s current {step} h =
    let (keep, k, h1) = >>=-eq-ok (wanted w f j.context) _ h in
    elim (Bool-cases keep) [
      | inr stale ↦
          subst (Sends w f now j) (ok-injective (rw stale at h1)) (nothing obsoleted true refl refl)
      | inl fine ↦ elim (Bool-cases (truthy j.remote_id)) [
        | inl remote ↦
            subst (Sends w f now j) (ok-injective (rw (fine, remote) at h1))
              (polls refl refl (k ∙ ap ok fine) remote)
        | inr fresh ↦ elim (Bool-cases (is_full f s && not (remote_slot_held j))) [
          | inl full ↦
              subst (Sends w f now j) (ok-injective (rw (fine, fresh, full) at h1))
                (nothing (poll_later (now + f.poll_seconds)) true refl refl)
          | inr room ↦
              let (metadata, _, h2) =
                >>=-eq-ok (reservation f w.day j current) _ (rw (fine, fresh, room) at h1) in
              subst (Sends w f now j) (ok-injective h2)
                (plan_submission-Sends w f now j s current metadata (k ∙ ap ok fine))
        ]
      ]
    ]

plan_wave-Unnamed :
    (w : Surroundings) (f : Factory) (now : ℕ) (id : String) (js : Jobs) (s : Slots)
    (current : Jobs) (changes : List LeasedChange) (dispatch : Jobs)
    → has_id id js ≡ false
    → plan_wave w f now js s current ≡ ok (changes, dispatch)
    → Unnamed id changes
unfolding plan_wave
plan_wave-Unnamed w f now id [] s current changes dispatch n h =
    subst (Unnamed id) (ap (λ (x : List LeasedChange × Jobs). x.0) (ok-injective h)) tt
plan_wave-Unnamed w f now id (j ∷ js) s current changes dispatch n h =
    let (step, g, h1) = >>=-eq-ok (plan_job w f now j s current) _ h in
    let (rest, g2, h2) = >>=-eq-ok (plan_wave w f now js step.slots step.current) _ h1 in
    let (here, later) = ||-eq-false (str_eq j.id id) (has_id id js) n in
    subst (Unnamed id) (ap (λ (x : List LeasedChange × Jobs). x.0) (ok-injective h2)) (
      All-append _ step.changes rest.0
        (own (str_eq_comm id j.id ∙ here) step (plan_job-Sends w f now j s current g))
        (plan_wave-Unnamed w f now id js step.slots step.current rest.0 rest.1 later g2))
  where
    own : str_eq id j.id ≡ false → (step : Step) → Sends w f now j step → Unnamed id step.changes
    own e step (nothing c release one _) = subst (Unnamed id) (sym one) ((e, tt))
    own e step (polls quiet _ _ _) = subst (Unnamed id) (sym quiet) tt
    own e step (submits metadata one _ _) = subst (Unnamed id) (sym one) ((e, tt))

submission-IsRecorded :
    (now : ℕ) (j : Job) (metadata : Fields) (t : ℕ) (new : Job) (table : Jobs)
    → updated_job j (submission now j metadata) t ≡ ok new
    → read_job j.id table ≡ some new
    → IsRecorded table (prepared now j metadata)
unfolding completion_uncertain state_of_name
submission-IsRecorded now j metadata t new table h r =
    let s = updated_job-Succeeds j (submission now j metadata) t new h in
    record {
      row = new;
      found = r;
      state = updated_job-state j (submission now j metadata) t "submitting" submitting h refl refl;
      uncertain =
          rw
            (
              updated_job-metadata j (submission now j metadata) t h,
              get-put_field "completion_uncertain" (bool true) metadata,
            )
            refl;
      request = s.request;
      idempotency_key = s.idempotency_key;
    }

IsRecorded-kept :
    (table table' : Jobs) (j : Job)
    → read_job j.id table' ≡ read_job j.id table
    → IsRecorded table j
    → IsRecorded table' j
IsRecorded-kept table table' j e r = record {
  row = r.row;
  found = e ∙ r.found;
  state = r.state;
  uncertain = r.uncertain;
  request = r.request;
  idempotency_key = r.idempotency_key;
}

plan_wave-AllReserved :
    (json_bytes : Job → ℕ) (w : Surroundings) (f : Factory) (now t : ℕ) (js : Jobs) (s : Slots)
    (current : Jobs) (changes : List LeasedChange) (dispatch done table out table' : Jobs)
    → Unique js
    → Stands table js
    → plan_wave w f now js s current ≡ ok (changes, dispatch)
    → update_leased_loop json_bytes f.owner t changes done table ≡ ok (out, table')
    → All (IsReserved w f table') dispatch
unfolding plan_wave
plan_wave-AllReserved json_bytes w f now t [] s current changes dispatch done table out table' u a h
      k =
    subst (All (IsReserved w f table'))
      (ap (λ (x : List LeasedChange × Jobs). x.1) (ok-injective h)) tt
plan_wave-AllReserved json_bytes w f now t (j ∷ js) s current changes dispatch done table out table'
      u a h k =
    let (step, g, h1) = >>=-eq-ok (plan_job w f now j s current) _ h in
    let (rest, g2, h2) = >>=-eq-ok (plan_wave w f now js step.slots step.current) _ h1 in
    let p : step.changes ++ rest.0 ≡ changes =
      ap (λ (x : List LeasedChange × Jobs). x.0) (ok-injective h2) in
    let q : step.dispatch ++ rest.1 ≡ dispatch =
      ap (λ (x : List LeasedChange × Jobs). x.1) (ok-injective h2) in
    subst (All (IsReserved w f table')) q (
      sent step rest g2 (rw (← p) at k) (plan_job-Sends w f now j s current g)
        (plan_wave-AllReserved json_bytes w f now t js step.slots step.current rest.0 rest.1))
  where
    sent :
        (step : Step) (rest : List LeasedChange × Jobs)
        → plan_wave w f now js step.slots step.current ≡ ok rest
        → update_leased_loop json_bytes f.owner t (step.changes ++ rest.0) done table
          ≡ ok (out, table')
        → Sends w f now j step
        → ((done₁ table₁ out₁ table₂ : Jobs)
            → Unique js
            → Stands table₁ js
            → plan_wave w f now js step.slots step.current ≡ ok (rest.0, rest.1)
            → update_leased_loop json_bytes f.owner t rest.0 done₁ table₁ ≡ ok (out₁, table₂)
            → All (IsReserved w f table₂) rest.1)
        → All (IsReserved w f table') (step.dispatch ++ rest.1)
    sent step rest g k (nothing c release one none_sent) ih =
        let m =
          update_leased_loop-Turn json_bytes f.owner t j js c release rest.0 done table out table' a
            u.0 (rw one at k) in
        rw none_sent (ih m.done m.after out table' u.1 m.stands g m.goes_on)
    sent step rest g k (polls quiet one fine remote) ih =
        rw one ((fine, inl remote), ih done table out table' u.1 a.1 g (rw quiet at k))
    sent step rest g k (submits metadata one sends fine) ih =
        let m =
          update_leased_loop-Turn json_bytes f.owner t j js (submission now j metadata) false rest.0
            done table out table' a u.0 (rw one at k) in
        let kept =
          update_leased_loop-keeps json_bytes f.owner t j.id rest.0 m.done m.after out table'
            (plan_wave-Unnamed w f now j.id js step.slots step.current rest.0 rest.1 u.0 g)
            m.goes_on in
        let r = submission-IsRecorded now j metadata t m.new m.after m.updated m.row in
        rw sends (
          (fine, inr (IsRecorded-kept m.after table' (prepared now j metadata) kept r)),
          ih m.done m.after out table' u.1 m.stands g m.goes_on,
        )

-- Whatever a wave of distinct leased jobs that stand in the table as they were claimed returns to be
-- sent is wanted still: its sources are current and it was made for the model and the prompts of the
-- factory. It has a remote id to poll, or its row in the table that was committed says that its
-- acceptance is unknown, under the same request and idempotency key.
pub prepare_wave-AllReserved :
    (json_bytes : Job → ℕ) (time : ℕ) (digest : Digest) (w : Surroundings) (f : Factory) (now : ℕ)
    (leased dispatch : Jobs) (rows rows' : Artifacts) (table table' : Jobs)
    → Unique leased
    → Stands table leased
    → prepare_wave json_bytes time digest w f now leased (rows, table)
      ≡ ((rows', table'), ok dispatch)
    → All (IsReserved w f table') dispatch
prepare_wave-AllReserved json_bytes time digest w f now leased dispatch rows rows' table table' u a
      h =
    elim (prepare_wave-dispatches json_bytes time digest w f now leased rows table dispatch rows'
      table' h) [
        | inl idle ↦ subst (All (IsReserved w f table')) (sym idle) tt
        | inr (changes, out, planned, committed) ↦
            plan_wave-AllReserved json_bytes w f now time leased
              (record { taken = count_held table; freed = 0 }) table changes dispatch [] table out
              table' u a planned committed
      ]
