-- ===== src/Job/Succession.antt =====
-- store_schema.py: what stays true of a job from one revision to the next.
use parliament.Base.{
  ℕ, ◌≤◌, ◌≡◌, refl, sym, ◌∙◌, String, true, Option, none, ◌⊎◌, inl, inr, arith, ok, subst, ◌≢◌,
}
use native.Mathlib.Nat.{le_trans}
use mathlib.Core.Path.{subst₂}
use parliament.Value.{plain, Value, null}
use parliament.Job.{
  JobState, polling, completed, Job, Changes, frozen, remote_ready, result_ready, apply_changes,
  updated_job, truthy,
}
use parliament.Job.Update.{Accepted, updated_job-Accepted}
use parliament.Job.Reaching.{
  reaches, reaches_refl, reaches_trans, frozen-reaches, next_state-reaches,
}
use parliament.Job.Sealing.{
  keeps_text-given, keeps_value-given, keeps_count-count_or, counted-le, remote_id-write_once,
  sealed-unchanged,
}

-- What no later revision of a job undoes: its identity and its work never change, attempts are
-- only counted up, a remote identity is written once, and a finished job stays finished. In a
-- completed or obsolete job the error, the attempts and the remote identity never change either, and
-- the result and the metadata stay equal in Python, which holds True and 1 for equal.
pub record Succeeds (j j' : Job) : Type 0 where
  pub id : j'.id ≡ j.id
  pub kind : j'.kind ≡ j.kind
  pub key : j'.key ≡ j.key
  pub request : j'.request ≡ j.request
  pub context : j'.context ≡ j.context
  pub idempotency_key : j'.idempotency_key ≡ j.idempotency_key
  pub created_at : j'.created_at ≡ j.created_at
  pub attempts : j.attempts ≤ j'.attempts
  pub remote : (j.remote_id ≡ none) ⊎ (j'.remote_id ≡ j.remote_id)
  pub state : reaches j.state j'.state ≡ true
  pub sealed_result : frozen j.state ≡ true → plain j'.result ≡ plain j.result
  pub sealed_error : frozen j.state ≡ true → j'.error ≡ j.error
  pub sealed_metadata : frozen j.state ≡ true → plain j'.metadata ≡ plain j.metadata
  pub sealed_attempts : frozen j.state ≡ true → j'.attempts ≡ j.attempts
  pub sealed_remote : frozen j.state ≡ true → j'.remote_id ≡ j.remote_id

pub Succeeds-refl : (j : Job) → Succeeds j j
Succeeds-refl j = record {
  id = refl;
  kind = refl;
  key = refl;
  request = refl;
  context = refl;
  idempotency_key = refl;
  created_at = refl;
  attempts = omega arith;
  remote = inr refl;
  state = reaches_refl j.state;
  sealed_result = λ _. refl;
  sealed_error = λ _. refl;
  sealed_metadata = λ _. refl;
  sealed_attempts = λ _. refl;
  sealed_remote = λ _. refl;
}

pub Succeeds-trans : {j k l : Job} → Succeeds j k → Succeeds k l → Succeeds j l
Succeeds-trans {j} {k} {l} p q =
    let frozen_k = λ (f : frozen j.state ≡ true). frozen-reaches j.state k.state p.state f in
    record {
      id = q.id ∙ p.id;
      kind = q.kind ∙ p.kind;
      key = q.key ∙ p.key;
      request = q.request ∙ p.request;
      context = q.context ∙ p.context;
      idempotency_key = q.idempotency_key ∙ p.idempotency_key;
      created_at = q.created_at ∙ p.created_at;
      attempts = le_trans p.attempts q.attempts;
      remote = elim p.remote [
        | inl e ↦ inl e
        | inr e ↦ elim q.remote [ inl f ↦ inl (sym e ∙ f) | inr f ↦ inr (f ∙ e) ]
      ];
      state = reaches_trans j.state k.state l.state p.state q.state;
      sealed_result = λ f. q.sealed_result (frozen_k f) ∙ p.sealed_result f;
      sealed_error = λ f. q.sealed_error (frozen_k f) ∙ p.sealed_error f;
      sealed_metadata = λ f. q.sealed_metadata (frozen_k f) ∙ p.sealed_metadata f;
      sealed_attempts = λ f. q.sealed_attempts (frozen_k f) ∙ p.sealed_attempts f;
      sealed_remote = λ f. q.sealed_remote (frozen_k f) ∙ p.sealed_remote f;
    }

apply_changes-Succeeds :
    (j : Job) (c : Changes) (now : ℕ) {j' : Job} (a : Accepted j c now j')
    → Succeeds j (apply_changes j c a.state now)
unfolding apply_changes
apply_changes-Succeeds j c now a =
    let kept = sealed-unchanged j c a.sealed in
    record {
      id = refl;
      kind = refl;
      key = refl;
      request = refl;
      context = refl;
      idempotency_key = refl;
      created_at = refl;
      attempts = counted-le c.attempts j.attempts a.counted;
      remote = remote_id-write_once j.remote_id c.remote_id a.remote;
      state = next_state-reaches j.state c.state a.state a.stepped;
      sealed_result = λ f. keeps_value-given c.result j.result (kept f).result;
      sealed_error = λ f. keeps_text-given c.error j.error (kept f).error;
      sealed_metadata = λ f. keeps_value-given c.metadata j.metadata (kept f).metadata;
      sealed_attempts = λ f. keeps_count-count_or c.attempts j.attempts (kept f).count;
      sealed_remote = λ f. keeps_text-given c.remote_id j.remote_id (kept f).remote;
    }

-- An accepted update yields a successor of the job.
pub updated_job-Succeeds :
    (j : Job) (c : Changes) (now : ℕ) (j' : Job) → updated_job j c now ≡ ok j' → Succeeds j j'
updated_job-Succeeds j c now j' h =
    let a = updated_job-Accepted j c now h in
    subst (Succeeds j) (sym a.built) (apply_changes-Succeeds j c now a)

-- A job that polls has a remote request to poll, and a completed job has its result.
pub record IsWellFormed (j : Job) : Type 0 where
  pub addressed : j.state ≡ polling → truthy j.remote_id ≡ true
  pub resulted : j.state ≡ completed → j.result ≢ null

remote_ready-truthy :
    (s : JobState) (r : Option String) → remote_ready s r ≡ true → s ≡ polling → truthy r ≡ true
unfolding remote_ready
remote_ready-truthy s r h e = rw e at h

result_ready-not_null :
    (s : JobState) (r : Value) → result_ready s r ≡ true → s ≡ completed → r ≢ null
unfolding result_ready
result_ready-not_null s r h e n =
    let h' : result_ready completed null ≡ true = subst₂ (λ t v. result_ready t v ≡ true) e n h in
    cc

apply_changes-IsWellFormed :
    (j : Job) (c : Changes) (now : ℕ) {j' : Job} (a : Accepted j c now j')
    → IsWellFormed (apply_changes j c a.state now)
unfolding apply_changes
apply_changes-IsWellFormed j c now a = record {
  addressed = remote_ready-truthy a.state _ a.addressed;
  resulted = result_ready-not_null a.state _ a.resulted;
}

-- An accepted update leaves a well-formed job, whatever the job was before.
pub updated_job-IsWellFormed :
    (j : Job) (c : Changes) (now : ℕ) (j' : Job) → updated_job j c now ≡ ok j' → IsWellFormed j'
updated_job-IsWellFormed j c now j' h =
    let a = updated_job-Accepted j c now h in
    subst IsWellFormed (sym a.built) (apply_changes-IsWellFormed j c now a)

-- A change of the lease leaves everything else of a job alone.
pub with_lease-Succeeds :
    (j : Job) (owner : Option String) (until at : ℕ)
    → Succeeds j (record j { lease_owner = owner; lease_until = until; updated_at = at })
with_lease-Succeeds j owner until at = record {
  id = refl;
  kind = refl;
  key = refl;
  request = refl;
  context = refl;
  idempotency_key = refl;
  created_at = refl;
  attempts = omega arith;
  remote = inr refl;
  state = reaches_refl j.state;
  sealed_result = λ _. refl;
  sealed_error = λ _. refl;
  sealed_metadata = λ _. refl;
  sealed_attempts = λ _. refl;
  sealed_remote = λ _. refl;
}

pub with_lease-IsWellFormed :
    (j : Job) (owner : Option String) (until at : ℕ)
    → IsWellFormed j
    → IsWellFormed (record j { lease_owner = owner; lease_until = until; updated_at = at })
with_lease-IsWellFormed j owner until at w = record {
  addressed = w.addressed;
  resulted = w.resulted;
}
