-- ===== src/Execution/Wave/Concurrency.antt =====
-- execution.py, _prepare: a wave takes no more remote slots than the factory allows.
use parliament.Base.{
  Bool-cases, ok-injective, find, ok, >>=-eq-ok, ℕ, ◌+◌, ◌*◌, ◌≤◌, max, ◌≡◌, refl, sym, ap, subst,
  inl, inr, Bool, true, false, ◌&&◌, not, Option, none, some, List, [], ◌∷◌, ◌++◌, arith, one_if,
}
use parliament.Value.{Fields}
use parliament.Job.{Job, Changes, truthy, updated_job}
use parliament.Jobs.{Jobs, update_leased_loop, obsoleted}
use parliament.Jobs.Rows.{Unique}
use parliament.Jobs.Leases.{update_leased_loop-nil}
use parliament.Artifacts.{Artifacts}
use parliament.Execution.{Factory, remote_slot_held, reservation}
use parliament.Execution.Wave.{
  LeasedChange, count_held, submission, poll_later, work_limited, Slots, Step, is_full,
  Surroundings, wanted, plan_submission, plan_job, plan_wave, is_uncertain, prepare_wave, Digest,
}
use parliament.Execution.Wave.Holding.{
  held_released, updated-same_slot, obsoleted-no_slot, submission-slot,
}
use parliament.Execution.Wave.Committing.{prepare_wave-commits}
use parliament.Jobs.Lookups.{Stands}
use parliament.Execution.Wave.Counting.{update_leased_loop-Moved}

-- What the plan for one job comes to: no change, or one that moves the count of held slots as much
-- as the counter, and takes a new slot only where there is room.
data Fits (f : Factory) (t : ℕ) (j : Job) (s : Slots) (step : Step) : Type 0 where
  quiet : step.changes ≡ [] → step.slots ≡ s → Fits f t j s step
  writes :
      (c : Changes) (release held : Bool)
      → step.changes ≡ (j.id, c, release) ∷ []
      → ((new : Job) → updated_job j c t ≡ ok new → remote_slot_held new ≡ held)
      → step.slots.taken + s.freed + one_if (remote_slot_held j)
        ≡ s.taken + step.slots.freed + one_if held
      → ((limit : ℕ)
          → f.concurrency ≤ limit
          → s.taken ≤ limit + s.freed
          → step.slots.taken ≤ limit + step.slots.freed)
      → Fits f t j s step

-- a submission takes a slot that is held already, or one that is free
submission-room :
    (f : Factory) (s : Slots) (held : Bool)
    → (is_full f s && not held) ≡ false
    → (limit : ℕ) → f.concurrency ≤ limit
    → s.taken ≤ limit + s.freed
    → s.taken + one_if (not held) ≤ limit + s.freed
submission-room f s true h limit c b = omega arith
submission-room f s false h limit c b = ground (arith, h, c, b)

balanced :
    (taken freed : ℕ) (held : Bool)
    → taken + one_if (not held) + freed + one_if held ≡ taken + freed + 1
balanced taken freed true = omega arith
balanced taken freed false = omega arith

plan_submission-Fits :
    (w : Surroundings) (f : Factory) (now t : ℕ) (j : Job) (s : Slots) (current : Jobs)
    (metadata : Option Fields)
    → (is_full f s && not (remote_slot_held j)) ≡ false
    → Fits f t j s (plan_submission w now j s current metadata)
unfolding plan_submission
plan_submission-Fits w f now t j s current none h =
    writes (work_limited (now + 60 * w.second)) true (remote_slot_held j) refl
      (λ new g. updated-same_slot j (work_limited (now + 60 * w.second)) t new refl refl refl g)
      refl (λ limit c b. b)
plan_submission-Fits w f now t j s current (some metadata) h =
    writes (submission now j metadata) false true refl (submission-slot now j metadata t)
      (balanced s.taken s.freed (remote_slot_held j)) (submission-room f s (remote_slot_held j) h)

plan_job-Fits :
    (w : Surroundings) (f : Factory) (now t : ℕ) (j : Job) (s : Slots) (current : Jobs)
    {step : Step}
    → plan_job w f now j s current ≡ ok step
    → Fits f t j s step
unfolding plan_job
plan_job-Fits w f now t j s current {step} h =
    let (keep, _, h1) = >>=-eq-ok (wanted w f j.context) _ h in
    elim (Bool-cases keep) [
      | inr stale ↦ subst (Fits f t j s) (ok-injective (rw stale at h1)) (
          writes obsoleted true false refl (obsoleted-no_slot j t) (omega arith)
            (λ limit c b. omega arith))
      | inl fine ↦ elim (Bool-cases (truthy j.remote_id)) [
        | inl remote ↦
            subst (Fits f t j s) (ok-injective (rw (fine, remote) at h1)) (quiet refl refl)
        | inr fresh ↦ elim (Bool-cases (is_full f s && not (remote_slot_held j))) [
          | inl full ↦ subst (Fits f t j s) (ok-injective (rw (fine, fresh, full) at h1)) (
              writes (poll_later (now + f.poll_seconds)) true (remote_slot_held j) refl
                (λ new g.
                  updated-same_slot j (poll_later (now + f.poll_seconds)) t new refl refl refl g)
                refl (λ limit c b. b))
          | inr room ↦
              let (metadata, _, h2) =
                >>=-eq-ok (reservation f w.day j current) _ (rw (fine, fresh, room) at h1) in
              subst (Fits f t j s) (ok-injective h2)
                (plan_submission-Fits w f now t j s current metadata room)
        ]
      ]
    ]

-- The loop and its changes keep the count of held slots at the counter, and below the limit.
plan_wave-bounded :
    (json_bytes : Job → ℕ) (w : Surroundings) (f : Factory) (now t limit : ℕ) (js : Jobs)
    (s : Slots) (current : Jobs) (changes : List LeasedChange)
    (dispatch done table out table' : Jobs)
    → f.concurrency ≤ limit
    → Unique js
    → Unique table
    → Stands table js
    → count_held table + s.freed ≡ s.taken
    → s.taken ≤ limit + s.freed
    → plan_wave w f now js s current ≡ ok (changes, dispatch)
    → update_leased_loop json_bytes f.owner t changes done table ≡ ok (out, table')
    → count_held table' ≤ limit
unfolding plan_wave
plan_wave-bounded json_bytes w f now t limit [] s current changes dispatch done table out table' c v
      u a e b h k =
    let p = ap (λ (x : List LeasedChange × Jobs). x.0) (ok-injective h) in
    let q = rw (← p) at k in
    subst (λ (x : Jobs). count_held x ≤ limit)
      (update_leased_loop-nil json_bytes f.owner t done table out table' q) (omega (arith, e, b))
plan_wave-bounded json_bytes w f now t limit (j ∷ js) s current changes dispatch done table out
      table' c v u a e b h k =
    let (step, g, h1) = >>=-eq-ok (plan_job w f now j s current) _ h in
    let (rest, g2, h2) = >>=-eq-ok (plan_wave w f now js step.slots step.current) _ h1 in
    let p : step.changes ++ rest.0 ≡ changes =
      ap (λ (x : List LeasedChange × Jobs). x.0) (ok-injective h2) in
    fitted step rest g2 (rw (← p) at k) (plan_job-Fits w f now t j s current g)
      (plan_wave-bounded json_bytes w f now t limit js step.slots step.current rest.0 rest.1)
  where
    fitted :
        (step : Step) (rest : List LeasedChange × Jobs)
        → plan_wave w f now js step.slots step.current ≡ ok rest
        → update_leased_loop json_bytes f.owner t (step.changes ++ rest.0) done table
          ≡ ok (out, table')
        → Fits f t j s step
        → ((done₁ table₁ out₁ table₂ : Jobs)
            → f.concurrency ≤ limit
            → Unique js
            → Unique table₁
            → Stands table₁ js
            → count_held table₁ + step.slots.freed ≡ step.slots.taken
            → step.slots.taken ≤ limit + step.slots.freed
            → plan_wave w f now js step.slots step.current ≡ ok (rest.0, rest.1)
            → update_leased_loop json_bytes f.owner t rest.0 done₁ table₁ ≡ ok (out₁, table₂)
            → count_held table₂ ≤ limit)
        → count_held table' ≤ limit
    fitted step rest g k (quiet nothing same) ih =
        ih done table out table' c v.1 u a.1
          (subst (λ (x : Slots). count_held table + x.freed ≡ x.taken) (sym same) e)
          (subst (λ (x : Slots). x.taken ≤ limit + x.freed) (sym same) b) g (rw nothing at k)
    fitted step rest g k (writes ch release held one to balance room) ih =
        let m =
          update_leased_loop-Moved remote_slot_held held_released json_bytes f.owner t j js ch
            release held rest.0 done table out table' u a v.0 to (rw one at k) in
        let n = m.counted in
        ih m.done m.after out table' c v.1 m.unique m.stands (omega (arith, n, balance, e))
          (room limit c b) g m.goes_on

-- Preparing a wave of leased jobs that stand in the table as they were claimed, none of them of
-- uncertain acceptance: whatever it returns or raises, afterwards the jobs that hold a remote slot
-- are no more than the factory's concurrency, or than there were before.
pub prepare_wave-bounded :
    (json_bytes : Job → ℕ) (time : ℕ) (digest : Digest) (w : Surroundings) (f : Factory) (now : ℕ)
    (leased : Jobs) (rows : Artifacts) (table : Jobs)
    → find is_uncertain leased ≡ none
    → Unique leased
    → Unique table
    → Stands table leased
    → count_held (prepare_wave json_bytes time digest w f now leased (rows, table)).0.1
      ≤ max f.concurrency (count_held table)
prepare_wave-bounded json_bytes time digest w f now leased rows table n v u a =
    let limit = max f.concurrency (count_held table) in
    prepare_wave-commits json_bytes time digest w f now leased rows table n
      (λ x. count_held x ≤ limit) (omega arith)
      (λ changes dispatch out table' g h.
        plan_wave-bounded json_bytes w f now time limit leased
          (record { taken = count_held table; freed = 0 }) table changes dispatch [] table out
          table' (omega arith) v u a (omega arith) (omega arith) g h)
