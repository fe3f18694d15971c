-- ===== src/Jobs/ClaimRows.antt =====
-- store.py, GraphStore.claim: no row is lost or changed but in its lease.
use parliament.Base.{ok, ℕ, ◌+◌, String, ◌≡◌, refl, sym, subst, Option, some, []}
use parliament.Value.{Reading}
use parliament.Job.{Job}
use parliament.Job.Succession.{with_lease-Succeeds, with_lease-IsWellFormed}
use parliament.Jobs.{Jobs, lease_job, claim, duration, sort_jobs, runnable_jobs}
use parliament.Jobs.Rows.{
  Unique, write_job-rewrite, write_job-Advances, Advances, Advances-refl, Advances-trans,
}
use parliament.Jobs.Sorting.{Unique-candidates, All-candidates}
use parliament.Jobs.Claiming.{claim_loop_ind}
use parliament.Jobs.Exclusion.{claim-Claimed}
use parliament.Jobs.Lookups.{rows_found, Stands, Stands-rewrite}

-- Claiming keeps every row, in a later revision, and the ids unique.
pub claim-Advances :
    (json_bytes : Job → ℕ) (time : ℕ) (owner : String) (lease : Reading) (limit : ℕ)
    (now : Option Reading) (table out table' : Jobs)
    → Unique table
    → claim json_bytes time owner lease limit now table ≡ ok (out, table')
    → Advances table table'
claim-Advances json_bytes time owner lease limit now table out table' u h =
    let c = claim-Claimed json_bytes time owner lease limit now table out table' h in
    let js = sort_jobs (runnable_jobs table) in
    (claim_loop_ind json_bytes owner c.instant (duration lease) limit
      (λ ks _ t. Advances table t × Unique ks × Stands t ks)
      (λ k ks d t t' _ _ w p.
        let s = with_lease-Succeeds k (some owner) (c.instant + duration lease) c.instant in
        let step =
          write_job-Advances json_bytes k.id k _ t t' p.2.0 s
            (with_lease-IsWellFormed k (some owner) (c.instant + duration lease) c.instant) w in
        (
          Advances-trans p.0 step,
          p.1.1,
          subst (λ (x : Jobs). Stands x ks) (sym (write_job-rewrite json_bytes k.id _ t w))
              (Stands-rewrite k.id (lease_job owner c.instant (duration lease) k) t ks refl p.1.0
                p.2.1),
        ))
      (λ k ks d t _ p. (p.0, p.1.1, p.2.1)) js [] table out table' c.looped
      (
        Advances-refl table,
        Unique-candidates table u,
        All-candidates _ table (rows_found table u),
      )).0
