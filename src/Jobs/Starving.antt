-- ===== src/Jobs/Starving.antt =====
-- store.py, GraphStore.claim: no due job starves. Workers that claim one after another, with limits
-- that add up to the due jobs, are given each of them.
use parliament.Base.{
  Bool-cases, All, All-map, Result, ok, ◌>>=◌, ℕ, ◌+◌, ◌≤◌, String, ◌≡◌, refl, ◌⊎◌, inl, inr, Bool,
  true, false, Option, some, List, [], ◌∷◌, ◌++◌, arith, length, length-append, count_where,
}
use parliament.Value.{Reading, store_clock}
use parliament.Job.{Job, due}
use parliament.Jobs.{Jobs, read_job, claim, duration}
use parliament.Jobs.Rows.{Unique, has_id, All-read_job}
use parliament.Jobs.Lookups.{rows_found}
use parliament.Jobs.Serving.{Fits, has_id-append_either, Lease}
use parliament.Jobs.Served.{IsRequest, Served, claim-total, claim-Served}

-- what one worker asks for
pub record Round : Type 0 where
  pub owner : String
  pub lease : Reading
  pub limit : ℕ

-- the jobs that the workers may take in all
abbrev pub capacity : List Round → ℕ
capacity [] = 0
capacity (r ∷ rs) = r.limit + capacity rs

-- the leases that the workers ask for at an instant
abbrev pub leases_of : ℕ → List Round → List Lease
leases_of t [] = []
leases_of t (r ∷ rs) =
    record { owner = r.owner; until = t + duration r.lease; at = t } ∷ leases_of t rs

module _ (json_bytes : Job → ℕ) (time : ℕ) (now : Option Reading) where
  -- the claims of the workers, one after another, and all jobs that they lease
  unfoldable pub claim_rounds : List Round → Jobs → Result (Jobs × Jobs)
  claim_rounds [] table = ok ([], table)
  claim_rounds (r ∷ rs) table = do
    (out, table') ← claim json_bytes time r.owner r.lease r.limit now table
    (more, table'') ← claim_rounds rs table'
    ok (out ++ more, table'')

  each_later :
      (out more table₁ table₂ : Jobs) (r : Job)
      → All (λ k. (has_id k.id more ≡ true) ⊎ (read_job k.id table₂ ≡ some k)) table₁
      → (has_id r.id out ≡ true) ⊎ (read_job r.id table₁ ≡ some r)
      → (has_id r.id (out ++ more) ≡ true) ⊎ (read_job r.id table₂ ≡ some r)
  each_later out more table₁ table₂ r a (inl taken) =
      inl (has_id-append_either r.id out more (inl taken))
  each_later out more table₁ table₂ r a (inr row) = elim (All-read_job _ r.id table₁ r a row) [
    | inl taken ↦ inl (has_id-append_either r.id out more (inr taken))
    | inr kept ↦ inr kept
  ]

  claim_rounds-Served :
      (rounds : List Round) (table : Jobs) (t : ℕ)
      → store_clock time now ≡ ok t
      → All (λ r. IsRequest r.owner r.lease r.limit) rounds
      → Unique table
      → All (Fits json_bytes (leases_of t rounds)) table
      → (p : Jobs × Jobs) × (claim_rounds rounds table ≡ ok p)
        × Served json_bytes [] t (capacity rounds) table p.0 p.1
  unfolding claim_rounds
  claim_rounds-Served [] table t clock q u f = (
    ([], table),
    refl,
    record {
      unique = u;
      fits = All-map _ _ table (λ r p. tt) f;
      measure = omega arith;
      counted = omega arith;
      each = All-map _ _ table (λ r p. inr p) (rows_found table u);
    },
  )
  claim_rounds-Served (r ∷ rs) table t clock q u f =
      let ((out, table₁), h) =
        claim-total json_bytes time r.owner r.lease r.limit now table t clock q.0
          (All-map _ _ table (λ k p. p.0) f) in
      let s =
        claim-Served json_bytes time r.owner r.lease r.limit now (leases_of t rs) table out table₁ t
          clock q.0 u (All-map _ _ table (λ k p. p.1) f) h in
      let ((more, table₂), h₂, s₂) = claim_rounds-Served rs table₁ t clock q.1 s.unique s.fits in
      let l = length-append out more in
      let m = s.measure in
      let m₂ = s₂.measure in
      let c = s.counted in
      let c₂ = s₂.counted in
      (
        (out ++ more, table₂),
        rw (h, h₂) refl,
        record {
          unique = s₂.unique;
          fits = s₂.fits;
          measure = omega (arith, l, m, m₂, c);
          counted = omega (arith, l, c, c₂);
          each = All-map _ _ table (λ k p. each_later out more table₁ table₂ k s₂.each p) s.each;
        },
      )

  none_counted : (p : Job → Bool) (js : Jobs) → count_where p js ≡ 0 → All (λ j. p j ≡ false) js
  none_counted p [] h = tt
  none_counted p (j ∷ js) h = elim (Bool-cases (p j)) [
    | inl here ↦ absurd (let h' = rw here at h in omega (arith, h'))
    | inr other ↦ let h' = rw other at h in (other, none_counted p js (omega (arith, h')))
  ]

  -- Workers that ask at one instant with accepted arguments for at least as many jobs as are due, of a
  -- table with unique ids where each row fits into the store under the leases that they ask for: all
  -- their claims go through, as many jobs are leased as were due, and each due job is among them.
  pub claim_rounds-serves_all :
      (rounds : List Round) (table : Jobs) (t : ℕ)
      → store_clock time now ≡ ok t
      → All (λ r. IsRequest r.owner r.lease r.limit) rounds
      → Unique table
      → All (Fits json_bytes (leases_of t rounds)) table
      → count_where (λ j. due j t) table ≤ capacity rounds
      → (out : Jobs) × (table' : Jobs) × (claim_rounds rounds table ≡ ok (out, table'))
        × (length out ≡ count_where (λ j. due j t) table)
        × All (λ j. due j t ≡ true → has_id j.id out ≡ true) table
  claim_rounds-serves_all rounds table t clock q u f enough =
      let ((out, table'), h, s) = claim_rounds-Served rounds table t clock q u f in
      let m = s.measure in
      let c = s.counted in
      let idle = none_counted (λ j. due j t) table' (omega (arith, m, c, enough)) in
      (
        out,
        table',
        h,
        omega (arith, m, enough),
        All-map _ _ table (λ k p d. served k out table' idle d p) s.each,
      )
    where
      served :
          (k : Job) (out table' : Jobs)
          → All (λ j. due j t ≡ false) table'
          → due k t ≡ true
          → (has_id k.id out ≡ true) ⊎ (read_job k.id table' ≡ some k)
          → has_id k.id out ≡ true
      served k out table' idle d (inl taken) = taken
      served k out table' idle d (inr kept) =
          absurd (let free = All-read_job _ k.id table' k idle kept in cc)
