-- ===== src/Execution/Deferral/Delays.antt =====
-- execution.py, _error_fields and _inference_error: how long a failed call is put off.
use parliament.Base.{
  leb, Bool-cases, Result, ok, err, ℕ, ◌+◌, ◌*◌, ◌≤◌, ◌<◌, min, max, ◌≡◌, refl, sym, ap, ◌∙◌, subst,
  inl, inr, Bool, true, false, ◌&&◌, not, none, some, arith, ◌^◌,
}
use parliament.Value.{ticks}
use parliament.Job.{Job, truthy, deferred, due, runnable, reading_or, state_of_name}
use parliament.Job.Update.{updated_job-state, updated_job-next_poll}
use parliament.Jobs.{Jobs, read_job, release_job}
use parliament.Jobs.Holding.{release-row}
use parliament.Artifacts.{Artifacts}
use native.Mathlib.Nat.{pow-le-pow_right, mul-le-mul_right, mul_assoc}
use parliament.Execution.{Factory}
use parliament.Execution.Wave.{Digest, pause_unknown_acceptance, paused_state}
use parliament.Execution.Deferral.{
  InferenceError, delay, error_fields, is_rejection, pause_rejected, pause_after, after_release,
  inference_error,
}

-- A failed call is deferred by at least five seconds and by what the server asks, by at most five
-- minutes if the server asks no more, and by no less after more attempts.
pub delay_bounds :
    (second attempts later retry_after : ℕ)
    → attempts ≤ later
    → (5 * second ≤ delay second attempts retry_after)
      × (retry_after ≤ delay second attempts retry_after)
      × (delay second attempts retry_after ≤ max retry_after (300 * second))
      × (delay second attempts retry_after ≤ delay second later retry_after)
unfolding delay
delay_bounds second attempts later retry_after h =
    let a = min attempts 6 in
    let b = min later 6 in
    let one = pow-le-pow_right {n = 2} (omega arith) {i = 0} {j = a} (omega arith) in
    let more = pow-le-pow_right {n = 2} (omega arith) {i = a} {j = b} (omega arith) in
    let low : 2 ^ 0 * second ≤ 2 ^ a * second = mul-le-mul_right second one in
    let up : 2 ^ a * second ≤ 2 ^ b * second = mul-le-mul_right second more in
    let x = mul_assoc 5 (2 ^ a) second in
    let y = mul_assoc 5 (2 ^ b) second in
    (omega (arith, low, x), omega arith, omega arith, omega (arith, up, x, y))

error_fields-state :
    (second now : ℕ) (j : Job) (e : InferenceError)
    → e.retryable ≡ true
    → (error_fields second now j e).state ≡ some "deferred"
unfolding error_fields
error_fields-state second now j e r = rw r refl

error_fields-next_poll :
    (second now : ℕ) (j : Job) (e : InferenceError)
    → e.retryable ≡ true
    → (error_fields second now j e).next_poll
      ≡ some (ticks (now + delay second j.attempts e.retry_after))
unfolding error_fields
error_fields-next_poll second now j e r = rw r refl

-- the pause changes no job, whatever becomes of it
pause_after-table :
    (digest : Digest) (now : ℕ) (j : Job) (e : InferenceError) (rows : Artifacts) (table : Jobs)
    → (pause_after digest now j e rows table).0.1 ≡ table
unfolding pause_after
pause_after-table digest now j e rows table =
    elim (Bool-cases (e.uncertain && not (truthy j.remote_id))) [
      | inl unsure ↦ rw unsure (kept (pause_unknown_acceptance digest j.id now rows))
      | inr sure ↦ elim (Bool-cases (is_rejection e.status)) [
        | inl bad ↦ rw (sure, bad) (kept (pause_rejected digest e.status now rows))
        | inr fine ↦ rw (sure, fine) refl
      ]
    ]
  where
    kept : (r : Result Artifacts) → (paused_state rows table tt r).0.1 ≡ table
    kept (ok x) = unfold paused_state in refl
    kept (err x) = unfold paused_state in refl

after_release-table :
    (digest : Digest) (now : ℕ) (j : Job) (e : InferenceError) (rows : Artifacts) (table : Jobs)
    (r : Result Jobs) (state : Artifacts × Jobs)
    → after_release digest now j e rows table r ≡ (state, ok tt)
    → (table' : Jobs) × (r ≡ ok table') × (table' ≡ state.1)
unfolding after_release
after_release-table digest now j e rows table (err problem) state h =
    absurd (let x = ap (λ (y : (Artifacts × Jobs) × Result (Unit {0})). y.1) h in cc)
after_release-table digest now j e rows table (ok table') state h = (
  table',
  refl,
  sym (pause_after-table digest now j e rows table')
      ∙ ap (λ (y : (Artifacts × Jobs) × Result (Unit {0})). y.0.1) h,
)

not_due :
    (second now : ℕ) (j : Job) (e : InferenceError) (new : Job) (later : ℕ)
    → later < now + max e.retry_after (5 * second)
    → new.next_poll ≡ now + delay second j.attempts e.retry_after
    → due (release_job true new) later ≡ false
unfolding due
not_due second now j e new later l h =
    let b = delay_bounds second j.attempts j.attempts e.retry_after (omega arith) in
    let x : leb new.next_poll later ≡ false =
      not_le new.next_poll later (rw h (omega (arith, l, b.0, b.1))) in
    rw x (and_false (runnable new.state))
  where
    not_le : (a c : ℕ) → c < a → leb a c ≡ false
    not_le a c k = ground arith

    and_false : (b : Bool) → (b && false && true) ≡ false
    and_false true = refl
    and_false false = refl

-- After a call that may be retried has failed and was recorded, the job stands deferred with no
-- lease, and it is not due before five more seconds and what the server asked have passed.
pub inference_error-defers :
    (json_bytes : Job → ℕ) (time : ℕ) (digest : Digest) (second : ℕ) (f : Factory) (now : ℕ)
    (j : Job) (e : InferenceError) (rows : Artifacts) (table : Jobs) (state : Artifacts × Jobs)
    (later : ℕ)
    → e.retryable ≡ true
    → inference_error json_bytes time digest second f now j e (rows, table) ≡ (state, ok tt)
    → later < now + max e.retry_after (5 * second)
    → (k : Job) × (read_job j.id state.1 ≡ some k)
      × (k.state ≡ deferred)
      × (k.lease_owner ≡ none)
      × (due k later ≡ false)
unfolding inference_error
inference_error-defers json_bytes time digest second f now j e rows table state later r h l =
    let (table', g, same) = after_release-table digest now j e rows table _ state h in
    let (old, new, u, row) =
      release-row json_bytes time j.id f.owner (error_fields second now j e) table table' g in
    (
      release_job true new,
      subst (λ (x : Jobs). read_job j.id x ≡ some (release_job true new)) same row,
      updated_job-state old (error_fields second now j e) time "deferred" deferred u
          (error_fields-state second now j e r) (unfold state_of_name in refl),
      refl,
      not_due second now j e new later l (
          updated_job-next_poll old (error_fields second now j e) time u
          ∙ ap (λ o. reading_or o old.next_poll) (error_fields-next_poll second now j e r)),
    )
