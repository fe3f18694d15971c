-- ===== src/Jobs/Exclusion.antt =====
-- store.py, GraphStore.claim and GraphStore.pending: what a worker is given, and that no two workers
-- hold a job at once.
use parliament.Base.{
  leb, Bool-cases, &&-eq-true, take, select, All, All-map, ok, require, >>=-eq-ok, >>-eq-ok,
  require-eq-ok, ℕ, ◌+◌, ◌-◌, ◌<◌, String, ◌≡◌, refl, sym, ◌∙◌, subst, inl, inr, true, false, ◌&&◌,
  Option, some, [], ◌∷◌, map, arith, str_eq, str_eq_iff, &&-false, ok-injective, All-and,
  All-of_map,
}
use parliament.Value.{Reading, store_clock, validate_label, label_valid}
use parliament.Job.{Job, due, runnable, truthy}
use parliament.Jobs.{
  Jobs, lease_job, claim_loop, claim, duration, duration_valid, sort_jobs, runnable_jobs, pending,
}
use parliament.Jobs.Rows.{has_id}
use parliament.Jobs.Sorting.{All-candidates, All-select, All-select_test, All-take}
use parliament.Jobs.Claiming.{claim_loop-claimed, claim_loop-Holds, Holds}

-- The checked arguments of a claim that went through.
pub record Claimed (json_bytes : Job → ℕ) (time : ℕ) (owner : String) (lease : Reading) (limit : ℕ)
    (now : Option Reading) (table out table' : Jobs) : Type 0 where
  pub instant : ℕ
  pub named : label_valid owner ≡ true
  pub clock : store_clock time now ≡ ok instant
  pub bounded : (leb 1 limit && leb limit 10000) ≡ true
  pub looped :
      claim_loop json_bytes owner instant
        (duration lease)
        limit
        (sort_jobs (runnable_jobs table))
        []
        table
      ≡ ok (out, table')

pub claim-Claimed :
    (json_bytes : Job → ℕ) (time : ℕ) (owner : String) (lease : Reading) (limit : ℕ)
    (now : Option Reading) (table out table' : Jobs)
    → claim json_bytes time owner lease limit now table ≡ ok (out, table')
    → Claimed json_bytes time owner lease limit now table out table'
unfolding claim validate_label
claim-Claimed json_bytes time owner lease limit now table out table' h =
    let (g1, h1) = >>-eq-ok (require (label_valid owner) _) _ h in
    let (t, g2, h2) = >>=-eq-ok (store_clock time now) _ h1 in
    let (g3, h3) =
      >>-eq-ok (require (duration_valid lease && (leb 1 limit && leb limit 10000)) _) _ h2 in
    record {
      instant = t;
      named = require-eq-ok _ _ g1;
      clock = g2;
      bounded = (&&-eq-true (duration_valid lease) _ (require-eq-ok _ _ g3)).1;
      looped = h3;
    }

pub Claimed-out :
    {json_bytes : Job → ℕ} {time : ℕ} {owner : String} {lease : Reading} {limit : ℕ}
    {now : Option Reading} {table out table' : Jobs}
    (c : Claimed json_bytes time owner lease limit now table out table')
    → out
      ≡ map
          (lease_job owner c.instant (duration lease))
          (take limit (select (λ j. due j c.instant) (sort_jobs (runnable_jobs table))))
Claimed-out {json_bytes} {time} {owner} {lease} {limit} {now} {table} {out} {table'} c =
    let whole : limit - 0 ≡ limit = omega arith in
    rw whole at (
      claim_loop-claimed json_bytes owner c.instant (duration lease) limit
        (sort_jobs (runnable_jobs table)) [] table out table' c.looped)

-- A claim leases exactly the jobs that `pending` shows at the same instant with the same limit.
pub claim-eq-pending :
    (json_bytes : Job → ℕ) (time : ℕ) (owner : String) (lease : Reading) (limit : ℕ)
    (now : Option Reading) (table out table' : Jobs)
    → claim json_bytes time owner lease limit now table ≡ ok (out, table')
    → (instant : ℕ) × (js : Jobs) × (store_clock time now ≡ ok instant)
      × (pending time limit now table ≡ ok js)
      × (out ≡ map (lease_job owner instant (duration lease)) js)
unfolding pending
claim-eq-pending json_bytes time owner lease limit now table out table' h =
    let c = claim-Claimed json_bytes time owner lease limit now table out table' h in
    let js = take limit (select (λ j. due j c.instant) (sort_jobs (runnable_jobs table))) in
    (c.instant, js, c.clock, rw (c.bounded, c.clock) refl, Claimed-out c)

pub label_valid-truthy : (s : String) → label_valid s ≡ true → truthy (some s) ≡ true
unfolding label_valid truthy
label_valid-truthy s h = elim (Bool-cases (str_eq s "")) [
  | inl empty ↦ let h' = subst (λ x. label_valid x ≡ true) ((str_eq_iff s "").0 empty) h in cc
  | inr other ↦ rw other
]

-- a job under a lease that runs on at the instant is not due
pub held_not_due :
    (owner : String) (until now : ℕ) (r : Job)
    → truthy (some owner) ≡ true
    → now < until
    → (r.lease_owner ≡ some owner) × (r.lease_until ≡ until)
    → due r now ≡ false
unfolding due
held_not_due owner until now r o later (held, ends) =
    let not_yet : leb until now ≡ false = ground arith in
    simp (held, ends, o, not_yet) (&&-false (runnable r.state && leb r.next_poll now))

-- so a row that is due was not claimed
free_of_held :
    (owner : String) (until now : ℕ) (out : Jobs)
    → truthy (some owner) ≡ true
    → now < until
    → (r : Job)
    → (has_id r.id out ≡ true → (r.lease_owner ≡ some owner) × (r.lease_until ≡ until))
      × (due r now ≡ true)
    → has_id r.id out ≡ false
free_of_held owner until now out o later r (held, free) = elim (Bool-cases (has_id r.id out)) [
  | inl mine ↦ absurd (let busy = held_not_due owner until now r o later (held mine) in cc)
  | inr other ↦ other
]

pub Holds-none :
    (owner : String) (instant seconds : ℕ) (table : Jobs) → Holds owner instant seconds [] table
Holds-none owner instant seconds [] = tt
Holds-none owner instant seconds (j ∷ js) = ((λ h. cc), Holds-none owner instant seconds js)

-- Two claims while the first lease runs share no job, whoever makes the second one.
pub claim_exclusive :
    (json_bytes : Job → ℕ) (time time₂ : ℕ) (owner owner₂ : String) (lease lease₂ : Reading)
    (limit limit₂ : ℕ) (now now₂ : Option Reading) (table out table' out₂ table'' : Jobs) (t t₂ : ℕ)
    → store_clock time now ≡ ok t
    → store_clock time₂ now₂ ≡ ok t₂
    → t₂ < t + duration lease
    → claim json_bytes time owner lease limit now table ≡ ok (out, table')
    → claim json_bytes time₂ owner₂ lease₂ limit₂ now₂ table' ≡ ok (out₂, table'')
    → All (λ j. has_id j.id out ≡ false) out₂
claim_exclusive json_bytes time time₂ owner owner₂ lease lease₂ limit limit₂ now now₂ table out
      table' out₂ table'' t t₂ clock clock₂ later h h₂ =
    let c = claim-Claimed json_bytes time owner lease limit now table out table' h in
    let c₂ = claim-Claimed json_bytes time₂ owner₂ lease₂ limit₂ now₂ table' out₂ table'' h₂ in
    let e : c.instant ≡ t = ok-injective (sym c.clock ∙ clock) in
    let e₂ : c₂.instant ≡ t₂ = ok-injective (sym c₂.clock ∙ clock₂) in
    let rows =
      claim_loop-Holds json_bytes owner c.instant (duration lease) limit _ [] table out table'
        c.looped (Holds-none owner c.instant (duration lease) table) in
    let free =
      All-and _ _ _ (All-select _ (λ j. due j c₂.instant) _ (All-candidates _ table' rows))
        (All-select_test (λ j. due j c₂.instant) (sort_jobs (runnable_jobs table'))) in
    let soon : c₂.instant < c.instant + duration lease = omega arith in
    subst (All (λ j. has_id j.id out ≡ false)) (sym (Claimed-out c₂)) (
      All-of_map _ (lease_job owner₂ c₂.instant (duration lease₂)) _ (
        All-take _ limit₂ _ (
          All-map _ _ _
            (free_of_held owner (c.instant + duration lease) c₂.instant out
              (label_valid-truthy owner c.named) soon)
            free)))
