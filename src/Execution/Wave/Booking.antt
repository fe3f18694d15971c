-- ===== src/Execution/Wave/Booking.antt =====
-- engine.py, Factory._reservation, as _prepare of execution.py calls it: what one turn of the loop
-- does to the submissions of the day, in the dict of jobs and through its change.
use parliament.Base.{
  Bool-cases, ok-injective, some-eq, select, length, ok, >>=-eq-ok, ℕ, ◌+◌, ◌*◌, ◌≤◌, ◌<◌, ◌≡◌,
  refl, sym, ap, ◌∙◌, subst, ◌⊎◌, inl, inr, Bool, true, false, ◌&&◌, not, Option, none, some, [],
  ◌∷◌, arith, String, ◌==◌, leb, count_where,
}
use parliament.Value.{Fields, get, bool}
use parliament.Value.Objects.{fields_of, is_text, is_true, get-put_field_ne}
use parliament.Job.{Job, Changes, truthy, updated_job}
use parliament.Job.Update.{updated_job-metadata}
use parliament.Jobs.{Jobs, release_job, obsoleted}
use parliament.Jobs.Keyed.{put_by_id}
use parliament.Execution.{Factory, remote_slot_held, reservation, submitted_on, request_tokens}
use parliament.Execution.Wave.{
  submission, poll_later, work_limited, Slots, Step, is_full, Surroundings, wanted, plan_submission,
  plan_job, prepared,
}
use parliament.Jobs.Counting.{length-select}

pub submitted_released :
    (day : String) (b : Bool) (j : Job) → submitted_on day (release_job b j) ≡ submitted_on day j
unfolding submitted_on
submitted_released day true j = refl
submitted_released day false j = refl

updated-same_day :
    (day : String) (j : Job) (c : Changes) (t : ℕ) (new : Job)
    → c.metadata ≡ none
    → updated_job j c t ≡ ok new
    → submitted_on day new ≡ submitted_on day j
unfolding submitted_on
updated-same_day day j c t new m h = rw (updated_job-metadata j c t h, m) refl

submission-day :
    (day : String) (now : ℕ) (j : Job) (metadata : Fields) (t : ℕ) (new : Job)
    → updated_job j (submission now j metadata) t ≡ ok new
    → submitted_on day new ≡ submitted_on day (prepared now j metadata)
unfolding submitted_on
submission-day day now j metadata t new h =
    rw (updated_job-metadata j (submission now j metadata) t h) refl

-- A reservation keeps the day of the job, or finds room on this one.
reservation-room :
    (f : Factory) (day : String) (now : ℕ) (j : Job) (jobs : Jobs) (metadata : Fields)
    → 1 ≤ f.daily_jobs
    → reservation f day j jobs ≡ ok (some metadata)
    → (submitted_on day (prepared now j metadata) ≡ submitted_on day j)
      ⊎ (count_where (submitted_on day) jobs < f.daily_jobs)
unfolding reservation submitted_on
reservation-room f day now j jobs metadata limited h =
    elim (Bool-cases (is_true (get "submitted_day" (fields_of j.metadata)))) [
      | inl booked ↦
          let e : fields_of j.metadata ≡ metadata = some-eq (ok-injective (rw booked at h)) in
          inl (
            ap (is_text day) (
              get-put_field_ne "submitted_day" "completion_uncertain" (bool true) metadata refl
              ∙ ap (get "submitted_day") (sym e)))
      | inr fresh ↦
          let (tokens, _, h1) = >>=-eq-ok (request_tokens j.request) _ (rw fresh at h) in
          let submitted = length (select (submitted_on day) jobs) in
          elim (Bool-cases (not (f.daily_jobs == 0) && leb f.daily_jobs submitted)) [
            | inl full ↦ absurd (let x = ok-injective (rw full at h1) in cc)
            | inr room ↦
                let e = length-select (submitted_on day) jobs in
                inr (subst (λ n. n < f.daily_jobs) e (below f.daily_jobs submitted limited room))
          ]
    ]
  where
    below : (n m : ℕ) → 1 ≤ n → (not (n == 0) && leb n m) ≡ false → m < n
    below n m limited h = ground (arith, limited, h)

-- What the plan for one job does to the dict of jobs, beside its change.
pub data Books (f : Factory) (day : String) (t : ℕ) (j : Job) (current : Jobs) (step : Step)
    : Type 0 where
  quiet : step.changes ≡ [] → step.current ≡ current → Books f day t j current step
  keeps :
      (c : Changes) (release : Bool)
      → step.changes ≡ (j.id, c, release) ∷ []
      → ((new : Job) → updated_job j c t ≡ ok new → submitted_on day new ≡ submitted_on day j)
      → step.current ≡ current
      → Books f day t j current step
  books :
      (c : Changes) (release : Bool) (x : Job)
      → step.changes ≡ (j.id, c, release) ∷ []
      → ((new : Job) → updated_job j c t ≡ ok new → submitted_on day new ≡ submitted_on day x)
      → x.id ≡ j.id
      → step.current ≡ put_by_id x current
      → (submitted_on day x ≡ submitted_on day j)
        ⊎ (count_where (submitted_on day) current < f.daily_jobs)
      → Books f day t j current step

plan_submission-Books :
    (w : Surroundings) (f : Factory) (now t : ℕ) (j : Job) (s : Slots) (current : Jobs)
    → 1 ≤ f.daily_jobs
    → (metadata : Option Fields) → reservation f w.day j current ≡ ok metadata
    → Books f w.day t j current (plan_submission w now j s current metadata)
unfolding plan_submission
plan_submission-Books w f now t j s current limited none g =
    let c = work_limited (now + 60 * w.second) in
    keeps c true refl (λ new k. updated-same_day w.day j c t new refl k) refl
plan_submission-Books w f now t j s current limited (some metadata) g =
    books (submission now j metadata) false (prepared now j metadata) refl
      (submission-day w.day now j metadata t) refl refl
      (reservation-room f w.day now j current metadata limited g)

pub plan_job-Books :
    (w : Surroundings) (f : Factory) (now t : ℕ) (j : Job) (s : Slots) (current : Jobs)
    {step : Step}
    → 1 ≤ f.daily_jobs
    → plan_job w f now j s current ≡ ok step
    → Books f w.day t j current step
unfolding plan_job
plan_job-Books w f now t j s current {step} limited h =
    let (keep, _, h1) = >>=-eq-ok (wanted w f j.context) _ h in
    elim (Bool-cases keep) [
      | inr stale ↦ subst (Books f w.day t j current) (ok-injective (rw stale at h1)) (
          keeps obsoleted true refl (λ new g. updated-same_day w.day j obsoleted t new refl g) refl)
      | inl fine ↦ elim (Bool-cases (truthy j.remote_id)) [
        | inl remote ↦
            subst (Books f w.day t j current) (ok-injective (rw (fine, remote) at h1))
              (quiet refl refl)
        | inr fresh ↦ elim (Bool-cases (is_full f s && not (remote_slot_held j))) [
          | inl full ↦
              let c = poll_later (now + f.poll_seconds) in
              subst (Books f w.day t j current) (ok-injective (rw (fine, fresh, full) at h1))
                (keeps c true refl (λ new g. updated-same_day w.day j c t new refl g) refl)
          | inr room ↦
              let (metadata, g, h2) =
                >>=-eq-ok (reservation f w.day j current) _ (rw (fine, fresh, room) at h1) in
              subst (Books f w.day t j current) (ok-injective h2)
                (plan_submission-Books w f now t j s current limited metadata g)
        ]
      ]
    ]
