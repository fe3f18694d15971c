-- ===== src/Jobs/Served.antt =====
-- store.py, GraphStore.claim: a claim goes through, and what it leaves.
use parliament.Base.{
  zero, All, All-map, ok, ℕ, suc, ◌+◌, ◌<◌, min, String, ◌≡◌, refl, sym, ap, ◌∙◌, subst, ◌⊎◌, inr,
  true, false, Option, some, [], ◌∷◌, map, arith, length, take, select, count_where, ok-injective,
  List,
}
use parliament.Value.{
  ticks, negative, not_finite, Reading, store_clock, label_valid, validate_label, negative,
}
use parliament.Job.{Job, due, runnable}
use parliament.Jobs.{
  Jobs, read_job, lease_job, claim, duration, duration_valid, limit_valid, sort_jobs, runnable_jobs,
  ticks,
}
use parliament.Jobs.Rows.{Unique, has_id}
use parliament.Jobs.Sorting.{All-candidates, Unique-candidates}
use parliament.Jobs.Lookups.{rows_found}
use parliament.Jobs.Counting.{length-select, count_where-candidates}
use parliament.Jobs.Exclusion.{claim-Claimed, Claimed-out, label_valid-truthy}
use parliament.Jobs.Serving.{Fits, claim_loop-total, Serves-looped, FitsUnder, Lease}

-- the arguments of a claim are accepted
pub record IsRequest (owner : String) (lease : Reading) (limit : ℕ) : Type 0 where
  pub named : label_valid owner ≡ true
  pub lasts : duration_valid lease ≡ true
  pub limited : limit_valid limit ≡ true

due-runnable : (t : ℕ) (j : Job) → runnable j.state ≡ false → due j t ≡ false
unfolding due
due-runnable t j h = rw h refl

-- What a claim leaves: it goes through, leases as many due jobs as it may, and every row of before
-- was leased or is unchanged.
pub record Served (json_bytes : Job → ℕ) (leases : List Lease) (t limit : ℕ)
    (table out table' : Jobs) : Type 0 where
  pub unique : Unique table'
  pub fits : All (Fits json_bytes leases) table'
  pub measure : length out ≡ min limit (count_where (λ j. due j t) table)
  pub counted : count_where (λ j. due j t) table' + length out ≡ count_where (λ j. due j t) table
  pub each : All (λ r. (has_id r.id out ≡ true) ⊎ (read_job r.id table' ≡ some r)) table

lasting :
    (instant : ℕ) (lease : Reading)
    → duration_valid lease ≡ true
    → instant < instant + duration lease
lasting instant (ticks n) h = ground (arith, h)
lasting instant (negative n) h = cc
lasting instant not_finite h = cc

length-map-take :
    (f : Job → Job) (n : ℕ) (js : Jobs) → length (map f (take n js)) ≡ min n (length js)
length-map-take f zero js = omega arith
length-map-take f (suc n) [] = omega arith
length-map-take f (suc n) (j ∷ js) = let ih = length-map-take f n js in omega (arith, ih)

module _ (json_bytes : Job → ℕ) (time : ℕ) (owner : String) (lease : Reading) (limit : ℕ)
    (now : Option Reading) where
  pub claim-total :
      (table : Jobs) (t : ℕ)
      → store_clock time now ≡ ok t
      → IsRequest owner lease limit
      → All
          (λ j.
            FitsUnder json_bytes j (record { owner = owner; until = t + duration lease; at = t }))
          table
      → (p : Jobs × Jobs) × (claim json_bytes time owner lease limit now table ≡ ok p)
  unfolding claim validate_label
  claim-total table t clock q f =
      let ih =
        claim_loop-total json_bytes owner t (duration lease) limit (sort_jobs (runnable_jobs table))
          [] table (All-candidates _ table f) in
      (ih.0, rw (q.named, clock, q.lasts, q.limited) ih.1)

  pub claim-Served :
      (leases : List Lease) (table out table' : Jobs) (t : ℕ)
      → store_clock time now ≡ ok t
      → IsRequest owner lease limit
      → Unique table
      → All (Fits json_bytes leases) table
      → claim json_bytes time owner lease limit now table ≡ ok (out, table')
      → Served json_bytes leases t limit table out table'
  claim-Served leases table out table' t clock q u f h =
      let c = claim-Claimed json_bytes time owner lease limit now table out table' h in
      let e : c.instant ≡ t = ok-injective (sym c.clock ∙ clock) in
      let js = sort_jobs (runnable_jobs table) in
      let counts = λ (j : Job). due j c.instant in
      let s =
        Serves-looped json_bytes owner c.instant (duration lease) limit leases table js out table'
          (label_valid-truthy owner q.named) (lasting c.instant lease q.lasts)
          (record {
            unique = u;
            unique_left = Unique-candidates table u;
            stands = All-candidates _ table (rows_found table u);
            counted = omega arith;
            each = All-map _ _ table (λ r p. inr p) (rows_found table u);
            fits = f;
            fit_left = All-candidates _ table f;
          })
          c.looped in
      let m =
        ap length (Claimed-out c)
        ∙ length-map-take (lease_job owner c.instant (duration lease)) limit (select counts js)
        ∙ ap (min limit) (
            length-select counts js
            ∙ count_where-candidates counts table (due-runnable c.instant)) in
      subst (λ i. Served json_bytes leases i limit table out table') e
        (record {
          unique = s.unique;
          fits = s.fits;
          measure = m;
          counted = s.counted;
          each = s.each;
        })
