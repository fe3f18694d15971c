-- ===== src/Jobs/Serving.antt =====
-- store.py, GraphStore.claim: every due job is served. A claim whose rows can be written goes through,
-- leases as many due jobs as its limit allows, and leaves the others as they were.
use parliament.Base.{
  Bool-cases, All, All-map, ok, ℕ, ◌+◌, ◌<◌, String, ◌≡◌, refl, sym, ◌∙◌, subst, ◌⊎◌, inl, inr,
  true, ◌&&◌, ltb, leb, some, [], ◌∷◌, ◌++◌, arith, str_eq, str_eq_comm, length, length-append,
  count_where, List,
}
use parliament.Job.{Job, due, truthy}
use parliament.Jobs.{Jobs, read_job, write_job, lease_job, claim_loop, max_job_bytes}
use parliament.Jobs.Rows.{Unique, has_id, rewrite, write_job-rewrite, Unique-rewrite, All-rewrite}
use parliament.Jobs.Lookups.{Stands, Stands-rewrite, read_job-rewrite_ne}
use parliament.Jobs.Counting.{count_where-rewrite}
use parliament.Jobs.Claiming.{claim_loop_ind}
use parliament.Jobs.Exclusion.{held_not_due}

-- a lease, and when it is written
pub record Lease : Type 0 where
  pub owner : String
  pub until : ℕ
  pub at : ℕ

-- the row fits into the store under the lease
abbrev pub FitsUnder : (Job → ℕ) → Job → Lease → Type 0
FitsUnder json_bytes j l =
    leb
      (json_bytes
        (record j { lease_owner = some l.owner; lease_until = l.until; updated_at = l.at }))
      max_job_bytes
    ≡ true

-- the row fits into the store under each of the leases
abbrev pub Fits : (Job → ℕ) → List Lease → Job → Type 0
Fits json_bytes leases j = All (FitsUnder json_bytes j) leases

pub has_id-append_either :
    (x : String) (js ks : Jobs)
    → (has_id x js ≡ true) ⊎ (has_id x ks ≡ true)
    → has_id x (js ++ ks) ≡ true
has_id-append_either x [] ks (inl h) = cc
has_id-append_either x [] ks (inr h) = h
has_id-append_either x (j ∷ js) ks h = elim (Bool-cases (str_eq j.id x)) [
  | inl here ↦ rw here refl
  | inr other ↦ rw other (has_id-append_either x js ks (rw other at h))
]

module _ (json_bytes : Job → ℕ) (owner : String) (instant seconds limit : ℕ) where
  pub claim_loop-total :
      (js claimed table : Jobs)
      → All
          (λ j.
            FitsUnder json_bytes j
              (record { owner = owner; until = instant + seconds; at = instant }))
          js
      → (p : Jobs × Jobs) × (claim_loop json_bytes owner instant seconds limit js claimed table
          ≡ ok p)
  unfolding claim_loop write_job
  claim_loop-total [] claimed table f = ((claimed, table), refl)
  claim_loop-total (j ∷ js) claimed table f =
      elim (Bool-cases (due j instant && ltb (length claimed) limit)) [
        | inl go ↦
            let ih =
              claim_loop-total js (claimed ++ lease_job owner instant seconds j ∷ [])
                (rewrite j.id (lease_job owner instant seconds j) table) f.1 in
            (ih.0, rw (go, f.0) ih.1)
        | inr stop ↦ let ih = claim_loop-total js claimed table f.1 in (ih.0, rw stop ih.1)
      ]

module _ (json_bytes : Job → ℕ) (owner : String) (instant seconds limit : ℕ)
    (leases : List Lease) where
  -- The state of the loop, against the table that the claim found: the candidates to come stand
  -- unchanged, the due jobs left and the leased ones are the due jobs of before, and each row was
  -- leased or is unchanged.
  pub record Serves (before js claimed table : Jobs) : Type 0 where
    pub unique : Unique table
    pub unique_left : Unique js
    pub stands : Stands table js
    pub counted :
        count_where (λ j. due j instant) table + length claimed
        ≡ count_where (λ j. due j instant) before
    pub each : All (λ r. (has_id r.id claimed ≡ true) ⊎ (read_job r.id table ≡ some r)) before
    pub fits : All (Fits json_bytes leases) table
    pub fit_left : All (Fits json_bytes leases) js

  -- a row that was leased or is unchanged is so after another lease
  each_took :
      (r j took : Job) (claimed table : Jobs)
      → took.id ≡ j.id
      → (has_id r.id claimed ≡ true) ⊎ (read_job r.id table ≡ some r)
      → (has_id r.id (claimed ++ took ∷ []) ≡ true)
        ⊎ (read_job r.id (rewrite j.id took table) ≡ some r)
  each_took r j took claimed table e (inl leased) =
      inl (has_id-append_either r.id claimed (took ∷ []) (inl leased))
  each_took r j took claimed table e (inr row) = elim (Bool-cases (str_eq r.id j.id)) [
    | inl same ↦
        let own : has_id r.id (took ∷ []) ≡ true = rw (e, str_eq_comm j.id r.id, same) refl in
        inl (has_id-append_either r.id claimed (took ∷ []) (inr own))
    | inr other ↦ inr (read_job-rewrite_ne r.id j.id took table e other ∙ row)
  ]

  Serves-took :
      (before js claimed table t : Jobs) (j : Job)
      → truthy (some owner) ≡ true
      → instant < instant + seconds
      → due j instant ≡ true
      → write_job json_bytes j.id (lease_job owner instant seconds j) table ≡ ok t
      → Serves before (j ∷ js) claimed table
      → Serves before js (claimed ++ lease_job owner instant seconds j ∷ []) t
  Serves-took before js claimed table t j o later d w s =
      let took = lease_job owner instant seconds j in
      let e = write_job-rewrite json_bytes j.id took table w in
      let free = held_not_due owner (instant + seconds) instant took o later (refl, refl) in
      let n = count_where-rewrite (λ k. due k instant) j.id j took table s.unique s.stands.0 in
      let m = s.counted in
      let l = length-append claimed (took ∷ []) in
      subst (Serves before js (claimed ++ took ∷ [])) (sym e) (record {
        unique = Unique-rewrite j.id took table refl s.unique;
        unique_left = s.unique_left.1;
        stands = Stands-rewrite j.id took table js refl s.unique_left.0 s.stands.1;
        counted = (let m' = rw (d, free) at n in omega (arith, m', m, l));
        each = All-map _ _ before (λ r p. each_took r j took claimed table refl p) s.each;
        fits = All-rewrite (Fits json_bytes leases) j.id took table s.fit_left.0 s.fits;
        fit_left = s.fit_left.1;
      })

  pub Serves-looped :
      (table js out table' : Jobs)
      → truthy (some owner) ≡ true
      → instant < instant + seconds
      → Serves table js [] table
      → claim_loop json_bytes owner instant seconds limit js [] table ≡ ok (out, table')
      → Serves table [] out table'
  Serves-looped table js out table' o later s h =
      claim_loop_ind json_bytes owner instant seconds limit (Serves table)
        (λ k ks c t t' d _ w p. Serves-took table ks c t t' k o later d w p)
        (λ k ks c t _ p. record {
          unique = p.unique;
          unique_left = p.unique_left.1;
          stands = p.stands.1;
          counted = p.counted;
          each = p.each;
          fits = p.fits;
          fit_left = p.fit_left.1;
        })
        js [] table out table' h s
