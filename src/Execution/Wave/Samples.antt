-- ===== src/Execution/Wave/Samples.antt =====
-- A wave of three leased jobs for one free slot, and the theorem at it.
use parliament.Base.{
  All, true, length, find, Result, ok, ◌>>=◌, ℕ, ◌≤◌, max, ◌≡◌, refl, none, some, List, [], ◌∷◌,
  arith, count_where,
}
use parliament.Value.{
  store_clock, has_credentials, get, Value, obj, field, bool, str, num, pos, end,
}
use parliament.Value.Objects.{put_field}
use parliament.Job.{
  require_lease, updated_job, state_of_name, Job, submitting, planned, polling, truthy,
}
use parliament.Jobs.{update_leased, Jobs, read_job}
use parliament.Jobs.Keyed.{put_by_id}
use parliament.Jobs.Rows.{Unique}
use parliament.Execution.{
  Factory, remote_slot_held, completion_uncertain, slot_state, reservation, submitted_on,
}
use parliament.Execution.Wave.{Surroundings, prepare_wave, is_uncertain, count_held, plan_wave}
use parliament.Jobs.Lookups.{Stands}
use parliament.Execution.Wave.Reserved.{IsReserved, prepare_wave-AllReserved}
use parliament.Execution.Wave.Daily.{prepare_wave-daily}
use parliament.Execution.Wave.Concurrency.{prepare_wave-bounded}
use parliament.Index.{dependencies_current}
use parliament.Execution.Fixtures.{factory, work, bytes, digest}

abbrev surroundings : Surroundings
surroundings = record { fingerprint = λ v. "f"; sources = []; second = 10; day = "2026-01-01" }

abbrev leased_jobs : Jobs
leased_jobs = work "a" polling (some "r1") ∷ work "b" planned none ∷ work "c" planned none ∷ []

-- the first is polled, the second takes the free slot, the third waits
planned_wave : Result (List ℕ)
planned_wave =
    plan_wave surroundings factory 5 leased_jobs (record { taken = 1; freed = 0 }) leased_jobs
    >>= λ p. ok (length p.0 ∷ length p.1 ∷ [])

planned_run : planned_wave ≡ ok (2 ∷ 2 ∷ [])
unfolding dependencies_current planned_wave plan_wave remote_slot_held completion_uncertain
    slot_state truthy get put_field submitted_on put_by_id reservation
planned_run = refl

leased_jobs-Unique : Unique leased_jobs
leased_jobs-Unique = (refl, (refl, (refl, tt)))

leased_jobs-Stands : Stands leased_jobs leased_jobs
unfolding read_job
leased_jobs-Stands = (refl, (refl, (refl, tt)))

leased_certain : find is_uncertain leased_jobs ≡ none
unfolding is_uncertain
leased_certain = refl

prepare_wave-bounded_example :
    count_held
      (prepare_wave bytes 6 digest surroundings factory 5 leased_jobs ([], leased_jobs)).0.1
    ≤ max 2 (count_held leased_jobs)
prepare_wave-bounded_example =
    prepare_wave-bounded bytes 6 digest surroundings factory 5 leased_jobs [] leased_jobs
      leased_certain leased_jobs-Unique leased_jobs-Unique leased_jobs-Stands

-- a factory with room for all three and one new request a day: the third is put off by a minute
abbrev daily : Factory
daily = record factory { concurrency = 8; daily_jobs = 1 }

daily_wave : Result (List ℕ)
daily_wave =
    plan_wave surroundings daily 5 leased_jobs (record { taken = 1; freed = 0 }) leased_jobs
    >>= λ p. ok (length p.0 ∷ length p.1 ∷ [])

daily_run : daily_wave ≡ ok (2 ∷ 2 ∷ [])
unfolding dependencies_current daily_wave plan_wave remote_slot_held completion_uncertain slot_state
    truthy get put_field submitted_on put_by_id reservation
daily_run = refl

prepare_wave-daily_example :
    count_where
      (submitted_on "2026-01-01")
      (prepare_wave bytes 6 digest surroundings daily 5 leased_jobs ([], leased_jobs)).0.1
    ≤ max 1 (count_where (submitted_on "2026-01-01") leased_jobs)
prepare_wave-daily_example =
    prepare_wave-daily bytes 6 digest surroundings daily 5 leased_jobs [] leased_jobs (omega arith)
      leased_certain leased_jobs-Unique leased_jobs-Unique leased_jobs-Stands

-- what the first factory's wave leaves: the second job is recorded, the third is put off
abbrev booked : Value
booked = obj (
    field "completion_uncertain" (bool true) (
      field "expected_model" (str "m@1")
        (field "reserved_tokens" (num (pos 1026)) (field "submitted_day" (str "2026-01-01") end))))

abbrev recorded : Job
recorded = record (work "b" submitting none) {
  metadata = booked;
  attempts = 1;
  next_poll = 5;
  updated_at = 6;
}

abbrev after_wave : Jobs
after_wave =
    work "a" polling (some "r1")
    ∷ recorded
    ∷ record (work "c" planned none) {
      next_poll = 35;
      lease_owner = none;
      lease_until = 0;
      updated_at = 6;
    }
    ∷ []

abbrev to_send : Jobs
to_send = work "a" polling (some "r1") ∷ record recorded { updated_at = 1 } ∷ []

wave_run :
    prepare_wave bytes 6 digest surroundings factory 5 leased_jobs ([], leased_jobs)
    ≡ (([], after_wave), ok to_send)
unfolding prepare_wave dependencies_current remote_slot_held update_leased store_clock require_lease
    read_job updated_job state_of_name has_credentials
wave_run = refl

prepare_wave-AllReserved_example : All (IsReserved surroundings factory after_wave) to_send
prepare_wave-AllReserved_example =
    prepare_wave-AllReserved bytes 6 digest surroundings factory 5 leased_jobs to_send [] []
      leased_jobs after_wave leased_jobs-Unique leased_jobs-Stands wave_run
