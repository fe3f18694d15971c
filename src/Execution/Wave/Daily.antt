-- ===== src/Execution/Wave/Daily.antt =====
-- engine.py, Factory._reservation, as _prepare of execution.py calls it: a wave books no more requests
-- on a day than the factory allows.
use parliament.Base.{
  ok-injective, find, ok, >>=-eq-ok, ℕ, ◌≤◌, max, ◌≡◌, refl, sym, ap, ◌∙◌, subst, inl, inr, Bool,
  true, false, none, List, [], ◌∷◌, ◌++◌, arith, String, one_if, count_where,
}
use parliament.Job.{Job}
use parliament.Jobs.{Jobs, update_leased_loop}
use parliament.Jobs.Rows.{Unique, has_id, Unique-rewrite}
use parliament.Jobs.Leases.{update_leased_loop-nil}
use parliament.Artifacts.{Artifacts}
use parliament.Execution.{Factory, remote_slot_held, submitted_on}
use parliament.Execution.Wave.{
  LeasedChange, Slots, Step, Surroundings, plan_job, plan_wave, is_uncertain, prepare_wave, Digest,
}
use parliament.Execution.Wave.Booking.{
  Books, quiet, keeps, books, submitted_released, plan_job-Books,
}
use parliament.Execution.Wave.Committing.{prepare_wave-commits}
use parliament.Jobs.Lookups.{Stands, Stands-rewrite}
use parliament.Execution.Wave.Counting.{update_leased_loop-Moved, put_by_id-rewrite}
use parliament.Jobs.Counting.{count_where-rewrite}

one_if-le : (b : Bool) → one_if b ≤ 1
one_if-le true = omega arith
one_if-le false = omega arith

-- The dict of jobs agrees with the table on the leased jobs to come and on the count of the day.
record Agrees (day : String) (limit : ℕ) (js table current : Jobs) : Type 0 where
  unique : Unique table
  stands : Stands table js
  unique_current : Unique current
  stands_current : Stands current js
  counted : count_where (submitted_on day) table ≡ count_where (submitted_on day) current
  within : count_where (submitted_on day) table ≤ limit

module _ (json_bytes : Job → ℕ) (f : Factory) (day : String) (t limit : ℕ) (j : Job) (js : Jobs)
    (distinct : has_id j.id js ≡ false) (allowed : f.daily_jobs ≤ limit) where
  -- one turn of the loop and the change that it asks for keep the agreement
  step-Agrees :
      (step : Step) (rest : List LeasedChange) (done table current out table' : Jobs)
      → Agrees day limit (j ∷ js) table current
      → Books f day t j current step
      → update_leased_loop json_bytes f.owner t (step.changes ++ rest) done table ≡ ok (out, table')
      → (done' : Jobs) × (after : Jobs) × Agrees day limit js after step.current
        × (update_leased_loop json_bytes f.owner t rest done' after ≡ ok (out, table'))
  step-Agrees step rest done table current out table' a (quiet nothing same) k = (
    done,
    table,
    subst (Agrees day limit js table) (sym same) (record {
      unique = a.unique;
      stands = a.stands.1;
      unique_current = a.unique_current;
      stands_current = a.stands_current.1;
      counted = a.counted;
      within = a.within;
    }),
    rw nothing at k,
  )
  step-Agrees step rest done table current out table' a (keeps c release one to same) k =
      let m =
        update_leased_loop-Moved (submitted_on day) (submitted_released day) json_bytes f.owner t j
          js c release (submitted_on day j) rest done table out table' a.unique a.stands distinct to
          (rw one at k) in
      let n = m.counted in
      let counted = a.counted in
      let within = a.within in
      (
        m.done,
        m.after,
        subst (Agrees day limit js m.after) (sym same) (record {
          unique = m.unique;
          stands = m.stands;
          unique_current = a.unique_current;
          stands_current = a.stands_current.1;
          counted = omega (arith, n, counted);
          within = omega (arith, n, within);
        }),
        m.goes_on,
      )
  step-Agrees step rest done table current out table' a (books c release x one to e put room) k =
      let m =
        update_leased_loop-Moved (submitted_on day) (submitted_released day) json_bytes f.owner t j
          js c release (submitted_on day x) rest done table out table' a.unique a.stands distinct to
          (rw one at k) in
      let n = m.counted in
      let counted = a.counted in
      let within = a.within in
      let here = a.stands_current.0 in
      let q = count_where-rewrite (submitted_on day) j.id j x current a.unique_current here in
      (
        m.done,
        m.after,
        subst (Agrees day limit js m.after)
            (sym (put ∙ put_by_id-rewrite j.id x j current e a.unique_current here))
            (record {
              unique = m.unique;
              stands = m.stands;
              unique_current = Unique-rewrite j.id x current e a.unique_current;
              stands_current = Stands-rewrite j.id x current js e distinct a.stands_current.1;
              counted = omega (arith, n, counted, q);
              within = elim room [
                | inl same ↦ let s = ap one_if same in omega (arith, n, within, s)
                | inr free ↦
                    omega (arith, n, counted, free, allowed, one_if-le (submitted_on day x))
              ];
            }),
        m.goes_on,
      )

plan_wave-Agrees :
    (json_bytes : Job → ℕ) (w : Surroundings) (f : Factory) (now t limit : ℕ) (js : Jobs)
    (s : Slots) (current : Jobs) (changes : List LeasedChange)
    (dispatch done table out table' : Jobs)
    → 1 ≤ f.daily_jobs
    → f.daily_jobs ≤ limit
    → Unique js
    → Agrees w.day limit js table current
    → plan_wave w f now js s current ≡ ok (changes, dispatch)
    → update_leased_loop json_bytes f.owner t changes done table ≡ ok (out, table')
    → count_where (submitted_on w.day) table' ≤ limit
unfolding plan_wave
plan_wave-Agrees json_bytes w f now t limit [] s current changes dispatch done table out table' l c
      v a h k =
    let p = ap (λ (x : List LeasedChange × Jobs). x.0) (ok-injective h) in
    let q = rw (← p) at k in
    subst (λ (x : Jobs). count_where (submitted_on w.day) x ≤ limit)
      (update_leased_loop-nil json_bytes f.owner t done table out table' q) a.within
plan_wave-Agrees json_bytes w f now t limit (j ∷ js) s current changes dispatch done table out
      table' l c v a h k =
    let (step, g, h1) = >>=-eq-ok (plan_job w f now j s current) _ h in
    let (rest, g2, h2) = >>=-eq-ok (plan_wave w f now js step.slots step.current) _ h1 in
    let p : step.changes ++ rest.0 ≡ changes =
      ap (λ (x : List LeasedChange × Jobs). x.0) (ok-injective h2) in
    let (done', after, b, m) =
      step-Agrees json_bytes f w.day t limit j js v.0 c step rest.0 done table current out table' a
        (plan_job-Books w f now t j s current l g) (rw (← p) at k) in
    plan_wave-Agrees json_bytes w f now t limit js step.slots step.current rest.0 rest.1 done' after
      out table' l c v.1 b g2 m

-- Preparing a wave of leased jobs that stand in the table as they were claimed, none of them of
-- uncertain acceptance, under a daily limit: whatever it returns or raises, afterwards the jobs of
-- the table that count as submitted on the day are no more than the limit, or than there were before.
pub prepare_wave-daily :
    (json_bytes : Job → ℕ) (time : ℕ) (digest : Digest) (w : Surroundings) (f : Factory) (now : ℕ)
    (leased : Jobs) (rows : Artifacts) (table : Jobs)
    → 1 ≤ f.daily_jobs
    → find is_uncertain leased ≡ none
    → Unique leased
    → Unique table
    → Stands table leased
    → count_where
        (submitted_on w.day)
        (prepare_wave json_bytes time digest w f now leased (rows, table)).0.1
      ≤ max f.daily_jobs (count_where (submitted_on w.day) table)
prepare_wave-daily json_bytes time digest w f now leased rows table l n v u a =
    let limit = max f.daily_jobs (count_where (submitted_on w.day) table) in
    prepare_wave-commits json_bytes time digest w f now leased rows table n
      (λ x. count_where (submitted_on w.day) x ≤ limit) (omega arith)
      (λ changes dispatch out table' g h.
        plan_wave-Agrees json_bytes w f now time limit leased
          (record { taken = count_where remote_slot_held table; freed = 0 }) table changes dispatch
          [] table out table' l (omega arith) v
          (record {
            unique = u;
            stands = a;
            unique_current = u;
            stands_current = a;
            counted = refl;
            within = omega arith;
          })
          g h)
