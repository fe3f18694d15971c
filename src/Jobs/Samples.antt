-- ===== src/Jobs/Samples.antt =====
-- Runs of the job store on small tables, and the theorems at these inputs.
use parliament.Base.{
  ◌+◌, invalid_job_state, length, count_where, true, All, ok, err, ℕ, String, ◌≡◌, refl, false,
  none, some, List, [], ◌∷◌, map, arith, stale_lease, job_replay_conflict, active_lease, Option,
}
use parliament.Value.{
  bool, equals, get, Value, null, obj, end, field, num, pos, str, ticks, store_clock, label_valid,
  validate_label, has_credentials, same, codes,
}
use parliament.Job.{
  completed, state_of_name, Job, planned, submitting, polling, Changes, no_changes, updated_job,
  due, leased, require_lease, holds_lease, runnable, truthy, job_priority, transition, frozen,
  same_state, key_lt,
}
use parliament.Job.Succession.{IsWellFormed, updated_job-IsWellFormed}
use parliament.Jobs.{
  Jobs, read_job, enqueue, claim, update_job, update_leased, release, checkpoint, pending,
  lease_job, duration, retire_jobs, sort_jobs,
}
use parliament.Jobs.Rows.{Evolves, has_id}
use parliament.Jobs.Starving.{Round, claim_rounds, claim_rounds-serves_all}
use parliament.Jobs.Exclusion.{claim_exclusive, claim-eq-pending}
use parliament.Jobs.Holding.{release_revokes, claim_shields}
use parliament.Jobs.Queue.{enqueue_idem, enqueue_conflict}
use parliament.Jobs.Pending.{Shows, pending-Shows}
use parliament.Jobs.Listing.{get_job, jobs, JobItem, enqueue_many}
use parliament.Jobs.History.{updated, claimed, Reach, here, next, IsSound, Reach-Succeeds}

abbrev bytes : Job → ℕ
bytes j = 500

abbrev digest : String → String → String
digest kind key = key

abbrev body : Value
body = obj (field "model" (str "m") end)

abbrev job : String → String → ℕ → Job
job kind key time = record {
  id = key;
  kind = kind;
  key = key;
  request = body;
  context = end;
  idempotency_key = key;
  state = planned;
  remote_id = none;
  next_poll = 0;
  attempts = 0;
  result = null;
  error = none;
  metadata = obj end;
  lease_owner = none;
  lease_until = 0;
  created_at = time;
  updated_at = time;
}

abbrev extract : Job
extract = record (job "extract" "gr_a" 5) { key = "a"; idempotency_key = "graphrag-a" }

abbrev reduce : Job
reduce = record (job "query_reduce" "gr_b" 6) { key = "b"; idempotency_key = "graphrag-b" }

abbrev taken : Job → Job
taken j = lease_job "w" 10 600 j

code : Unit {0}
unfolding enqueue get sort_jobs key_lt state_of_name claim update_job update_leased release
    checkpoint pending read_job label_valid validate_label store_clock has_credentials same
    updated_job due leased require_lease holds_lease truthy job_priority transition frozen
    same_state runnable retire_jobs
code = tt

abbrev queue : Jobs
queue = extract ∷ reduce ∷ []

-- the reduction is served first
claim_run :
    claim bytes 0 "w" (ticks 600) 1 (some (ticks 10)) queue
    ≡ ok (taken reduce ∷ [], extract ∷ taken reduce ∷ [])
unfolding code
claim_run = refl

enqueue_run : enqueue bytes digest 5 "extract" "a" body end [] ≡ ok ("gr_a", extract ∷ [])
unfolding code
enqueue_run = refl

-- another worker finds what is left
second_claim_run :
    claim bytes 0 "v" (ticks 600) 2 (some (ticks 20)) (extract ∷ taken reduce ∷ [])
    ≡ ok (lease_job "v" 20 600 extract ∷ [], lease_job "v" 20 600 extract ∷ taken reduce ∷ [])
unfolding code
second_claim_run = refl

claim_exclusive_example :
    All (λ j. has_id j.id (taken reduce ∷ []) ≡ false) (lease_job "v" 20 600 extract ∷ [])
unfolding code
claim_exclusive_example =
    claim_exclusive bytes 0 0 "w" "v" (ticks 600) (ticks 600) 1 2 (some (ticks 10))
      (some (ticks 20)) queue (taken reduce ∷ []) (extract ∷ taken reduce ∷ [])
      (lease_job "v" 20 600 extract ∷ []) (lease_job "v" 20 600 extract ∷ taken reduce ∷ []) 10 20
      refl refl (omega arith) claim_run second_claim_run

claim-eq-pending_example :
    (instant : ℕ) × (js : Jobs) × (store_clock 0 (some (ticks 10)) ≡ ok instant)
    × (pending 0 1 (some (ticks 10)) queue ≡ ok js)
    × (taken reduce ∷ [] ≡ map (lease_job "w" instant (duration (ticks 600))) js)
claim-eq-pending_example =
    claim-eq-pending bytes 0 "w" (ticks 600) 1 (some (ticks 10)) queue (taken reduce ∷ [])
      (extract ∷ taken reduce ∷ []) claim_run

pending-Shows_example : Shows 10 2 queue (reduce ∷ extract ∷ [])
unfolding code
pending-Shows_example =
    pending-Shows 0 2 (some (ticks 10)) queue (reduce ∷ extract ∷ []) 10 refl refl

abbrev submitted : Changes
submitted = record no_changes {
  state = some "submitting";
  attempts = some (num (pos 1));
  metadata = some (obj end);
}

abbrev sent : Job
sent = record (taken reduce) { state = submitting; attempts = 1; updated_at = 11 }

updated_run : updated_job (taken reduce) submitted 11 ≡ ok sent
unfolding code
updated_run = refl

abbrev accepted : Changes
accepted = record no_changes { state = some "polling"; remote_id = some (some "r-1") }

abbrev polled : Job
polled = record sent { state = polling; remote_id = some "r-1"; updated_at = 12 }

polled_run : updated_job sent accepted 12 ≡ ok polled
unfolding code
polled_run = refl

updated_job-IsWellFormed_example : IsWellFormed polled
updated_job-IsWellFormed_example = updated_job-IsWellFormed sent accepted 12 polled polled_run

enqueue_idem_example :
    enqueue bytes digest 9 "extract" "a" body end (extract ∷ []) ≡ ok ("gr_a", extract ∷ [])
enqueue_idem_example =
    enqueue_idem bytes digest 5 9 "extract" "a" body end [] "gr_a" (extract ∷ []) enqueue_run

enqueue_conflict_example :
    enqueue bytes digest 9 "extract" "a" null end (extract ∷ []) ≡ err job_replay_conflict
unfolding code
enqueue_conflict_example =
    enqueue_conflict bytes digest 5 9 "extract" "a" body null end [] "gr_a" (extract ∷ [])
      enqueue_run refl refl

release_run :
    release bytes 0 "gr_b" "w" (some (ticks 11)) submitted (extract ∷ taken reduce ∷ [])
    ≡ ok (extract ∷ record sent { lease_owner = none; lease_until = 0 } ∷ [])
unfolding code
release_run = refl

release_revokes_example :
    checkpoint bytes 0 "gr_b" "w"
      (some (ticks 12))
      accepted
      (extract ∷ record sent { lease_owner = none; lease_until = 0 } ∷ [])
    ≡ err stale_lease
unfolding code
release_revokes_example =
    release_revokes bytes 0 0 "gr_b" "w" (some (ticks 11)) (some (ticks 12)) submitted accepted
      (extract ∷ taken reduce ∷ [])
      (extract ∷ record sent { lease_owner = none; lease_until = 0 } ∷ []) 12 refl release_run

claim_shields_example :
    update_job bytes 300 "gr_b" submitted (extract ∷ taken reduce ∷ []) ≡ err active_lease
unfolding code
claim_shields_example =
    claim_shields bytes 0 "w" (ticks 600) 1 (some (ticks 10)) queue (taken reduce ∷ [])
      (extract ∷ taken reduce ∷ []) 10 300 "gr_b" (taken reduce) submitted claim_run refl
      (omega arith) refl refl

-- a completed job whose result 1 is replaced by True, which Python accepts, and then a claim
abbrev finished : Job
finished = record (job "extract" "gr_d" 5) { state = completed; result = num (pos 1) }

abbrev restated : Job
restated = record finished { result = bool true; updated_at = 7 }

abbrev confirmed : Changes
confirmed = record no_changes { result = some (bool true) }

confirmed_run :
    update_job bytes 7 "gr_d" confirmed (finished ∷ extract ∷ []) ≡ ok (restated ∷ extract ∷ [])
unfolding code equals
confirmed_run = refl

later_claim_run :
    claim bytes 0 "w" (ticks 600) 1 (some (ticks 10)) (restated ∷ extract ∷ [])
    ≡ ok (taken extract ∷ [], restated ∷ taken extract ∷ [])
unfolding code
later_claim_run = refl

history : Reach bytes digest (finished ∷ extract ∷ []) (restated ∷ taken extract ∷ [])
history =
    next (next here (updated 7 "gr_d" confirmed confirmed_run))
      (claimed 0 "w" (ticks 600) 1 (some (ticks 10)) (taken extract ∷ []) later_claim_run)

finished-IsSound : IsSound (finished ∷ extract ∷ [])
finished-IsSound = record {
  ids = (refl, (refl, tt));
  jobs = (
    record { addressed = λ e. cc; resulted = λ e n. cc },
    (record { addressed = λ e. cc; resulted = λ e. cc }, tt),
  );
}

Reach-Succeeds_example :
    Evolves (finished ∷ extract ∷ []) (restated ∷ taken extract ∷ [])
    × IsSound (restated ∷ taken extract ∷ [])
Reach-Succeeds_example =
    Reach-Succeeds bytes digest (finished ∷ extract ∷ []) (restated ∷ taken extract ∷ [])
      finished-IsSound history

abbrev two_items : List JobItem
two_items =
    record { kind = "extract"; key = "a"; request = body; context = end }
    ∷ record { kind = "extract"; key = "a"; request = body; context = end }
    ∷ []

abbrev two_ids : List String
two_ids = "gr_a" ∷ "gr_a" ∷ []

enqueue_many_run : enqueue_many bytes digest 5 two_items [] ≡ ok (two_ids, extract ∷ [])
unfolding code enqueue_many
enqueue_many_run = refl

-- two workers with room for one job and for two
abbrev workers : List Round
workers =
    record { owner = "w"; lease = ticks 600; limit = 1 }
    ∷ record { owner = "v"; lease = ticks 600; limit = 2 }
    ∷ []

claim_rounds_run :
    claim_rounds bytes 0 (some (ticks 10)) workers queue
    ≡ ok (
      taken reduce ∷ lease_job "v" 10 600 extract ∷ [],
      lease_job "v" 10 600 extract ∷ taken reduce ∷ [],
    )
unfolding code claim_rounds
claim_rounds_run = refl

-- a size that grows with the id and with the name of the owner
abbrev owner_size : Option String → ℕ
owner_size none = 4
owner_size (some owner) = length (codes owner) + 2

abbrev sized : Job → ℕ
sized j = 300 + length (codes j.id) + owner_size j.lease_owner

claim_rounds-serves_all_example :
    (out : Jobs) × (table' : Jobs) × (claim_rounds sized 0 (some (ticks 10)) workers queue
      ≡ ok (out, table'))
    × (length out ≡ count_where (λ j. due j 10) queue)
    × All (λ j. due j 10 ≡ true → has_id j.id out ≡ true) queue
unfolding code
claim_rounds-serves_all_example =
    claim_rounds-serves_all sized 0 (some (ticks 10)) workers queue 10 refl
      (
        record { named = refl; lasts = refl; limited = refl },
        (record { named = refl; lasts = refl; limited = refl }, tt),
      )
      (refl, (refl, tt)) ((refl, (refl, tt)), ((refl, (refl, tt)), tt)) (omega arith)

-- reads of the table: a known id, and the planned jobs of a kind
get_job_run : get_job "gr_b" queue ≡ some reduce
unfolding code get_job
get_job_run = refl

jobs_run : jobs (some "planned") (some "extract") queue ≡ ok (extract ∷ [])
unfolding code jobs
jobs_run = refl

unknown_state_run : jobs (some "lost") none queue ≡ err invalid_job_state
unfolding code jobs
unknown_state_run = refl
