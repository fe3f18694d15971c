-- ===== src/Jobs/Claiming.antt =====
-- store.py, GraphStore.claim: which jobs are leased, and what that does to the table.
use parliament.Base.{
  ltb, ltb→lt, Bool-cases, &&-eq-true, str_eq_comm, length, take, select, All, length-append, ok,
  >>=-eq-ok, ℕ, zero, suc, ◌+◌, ◌-◌, ◌<◌, String, ◌≡◌, refl, sym, ap, ◌∙◌, subst, ◌⊎◌, inl, inr,
  true, false, ◌&&◌, some, [], ◌∷◌, ◌++◌, map, arith, str_eq, ok-injective,
}
use mathlib.Core.List.{append_assoc, append-nil}
use mathlib.Core.Path.{subst₂}
use parliament.Job.{Job, due}
use parliament.Jobs.{Jobs, write_job, lease_job, claim_loop}
use parliament.Jobs.Rows.{has_id, rewrite, write_job-rewrite}

take-nil : (n : ℕ) → take {A = Job} n [] ≡ []
take-nil zero = refl
take-nil (suc n) = refl

has_id-snoc_ne :
    (x : String) (claimed : Jobs) (j : Job)
    → str_eq j.id x ≡ false
    → has_id x (claimed ++ j ∷ []) ≡ true
    → has_id x claimed ≡ true
has_id-snoc_ne x [] j ne h = cc
has_id-snoc_ne x (k ∷ ks) j ne h = ground (arith, has_id-snoc_ne x ks j ne)

-- the lease that a claim writes
abbrev pub IsHeld : String → ℕ → ℕ → Job → Type 0
IsHeld owner instant seconds r = (r.lease_owner ≡ some owner) × (r.lease_until ≡ instant + seconds)

-- Every row whose id was claimed carries the new lease.
abbrev pub Holds : String → ℕ → ℕ → Jobs → Jobs → Type 0
Holds owner instant seconds claimed table =
    All (λ r. has_id r.id claimed ≡ true → IsHeld owner instant seconds r) table

module _ (json_bytes : Job → ℕ) (owner : String) (instant seconds limit : ℕ) where
  -- One round of the loop: the job is leased and written, or passed over.
  claim_loop-cons :
      (j : Job) (js claimed table out table' : Jobs)
      → claim_loop json_bytes owner instant seconds limit (j ∷ js) claimed table ≡ ok (out, table')
      → (((due j instant && ltb (length claimed) limit) ≡ true)
          × ((t : Jobs) × (write_job json_bytes j.id (lease_job owner instant seconds j) table
                ≡ ok t)
              × (claim_loop json_bytes owner instant seconds limit js
                    (claimed ++ lease_job owner instant seconds j ∷ [])
                    t
                  ≡ ok (out, table'))))
        ⊎ (((due j instant && ltb (length claimed) limit) ≡ false)
            × (claim_loop json_bytes owner instant seconds limit js claimed table
                ≡ ok (out, table')))
  unfolding claim_loop
  claim_loop-cons j js claimed table out table' h =
      elim (Bool-cases (due j instant && ltb (length claimed) limit)) [
        | inl go ↦ inl (go, >>=-eq-ok _ _ (rw go at h))
        | inr stop ↦ inr (stop, rw stop at h)
      ]

  -- A bundle for induction over the loop: `P` at the end from a rule for each kind of round.
  pub claim_loop_ind :
      (P : Jobs → Jobs → Jobs → Type 0)
      → ((j : Job) (js claimed table t : Jobs)
          → due j instant ≡ true
          → length claimed < limit
          → write_job json_bytes j.id (lease_job owner instant seconds j) table ≡ ok t
          → P (j ∷ js) claimed table
          → P js (claimed ++ lease_job owner instant seconds j ∷ []) t)
      → ((j : Job) (js claimed table : Jobs)
          → (due j instant && ltb (length claimed) limit) ≡ false
          → P (j ∷ js) claimed table
          → P js claimed table)
      → (js claimed table out table' : Jobs)
      → claim_loop json_bytes owner instant seconds limit js claimed table ≡ ok (out, table')
      → P js claimed table
      → P [] out table'
  claim_loop_ind P took left [] claimed table out table' h p =
      unfold claim_loop in
      subst₂ (P []) (ap (λ (x : Jobs × Jobs). x.0) (ok-injective h))
        (ap (λ (x : Jobs × Jobs). x.1) (ok-injective h)) p
  claim_loop_ind P took left (j ∷ js) claimed table out table' h p =
      elim (claim_loop-cons j js claimed table out table' h) [
        | inl (go, (t, written, rest)) ↦
            let (d, room) = &&-eq-true (due j instant) (ltb (length claimed) limit) go in
            claim_loop_ind P took left js _ t out table' rest
              (took j js claimed table t d (ltb→lt _ _ room) written p)
        | inr (stop, rest) ↦
            claim_loop_ind P took left js claimed table out table' rest
              (left j js claimed table stop p)
      ]

  -- what the loop still has to return
  abbrev expected : Jobs → Jobs → Jobs
  expected js claimed =
      claimed
      ++ map (lease_job owner instant seconds)
          (take (limit - length claimed) (select (λ j. due j instant) js))

  expected-took :
      (j : Job) (js claimed : Jobs)
      → due j instant ≡ true
      → length claimed < limit
      → expected (j ∷ js) claimed ≡ expected js (claimed ++ lease_job owner instant seconds j ∷ [])
  expected-took j js claimed d room =
      let next = claimed ++ lease_job owner instant seconds j ∷ [] in
      let e : limit - length claimed ≡ suc (limit - length next) =
        omega (arith, length-append claimed (lease_job owner instant seconds j ∷ [])) in
      rw (d, e) (sym (append_assoc claimed (lease_job owner instant seconds j ∷ []) _))

  expected-left :
      (j : Job) (js claimed : Jobs)
      → (due j instant && ltb (length claimed) limit) ≡ false
      → expected (j ∷ js) claimed ≡ expected js claimed
  expected-left j js claimed stop = elim (Bool-cases (due j instant)) [
    | inl d ↦ let full : limit - length claimed ≡ 0 = ground arith in rw full
    | inr d ↦ rw d
  ]

  expected-nil : (claimed : Jobs) → expected [] claimed ≡ claimed
  expected-nil claimed = rw (take-nil (limit - length claimed)) (append-nil claimed)

  -- Exactly the first due jobs are leased, up to the limit.
  pub claim_loop-claimed :
      (js claimed table out table' : Jobs)
      → claim_loop json_bytes owner instant seconds limit js claimed table ≡ ok (out, table')
      → out ≡ expected js claimed
  claim_loop-claimed js claimed table out table' h =
      sym (expected-nil out)
      ∙ claim_loop_ind (λ ks c _. expected ks c ≡ expected js claimed)
          (λ k ks c t t' d room _ p. sym (expected-took k ks c d room) ∙ p)
          (λ k ks c t stop p. sym (expected-left k ks c stop) ∙ p) js claimed table out table' h
          refl

  Holds-took :
      (j : Job) (claimed table : Jobs)
      → Holds owner instant seconds claimed table
      → Holds owner instant seconds
          (claimed ++ lease_job owner instant seconds j ∷ [])
          (rewrite j.id (lease_job owner instant seconds j) table)
  Holds-took j claimed [] a = tt
  Holds-took j claimed (k ∷ ks) a = elim (Bool-cases (str_eq k.id j.id)) [
    | inl same ↦ rw same ((λ _. (refl, refl)), Holds-took j claimed ks a.1)
    | inr other ↦ rw other (
      (λ h. a.0 (
          has_id-snoc_ne k.id claimed (lease_job owner instant seconds j)
            (rw (str_eq_comm j.id k.id) other) h)),
      Holds-took j claimed ks a.1,
    )
  ]

  pub claim_loop-Holds :
      (js claimed table out table' : Jobs)
      → claim_loop json_bytes owner instant seconds limit js claimed table ≡ ok (out, table')
      → Holds owner instant seconds claimed table
      → Holds owner instant seconds out table'
  claim_loop-Holds js claimed table out table' h a =
      claim_loop_ind (λ _ c t. Holds owner instant seconds c t)
        (λ k ks c t t' d room w p.
          subst (Holds owner instant seconds (c ++ lease_job owner instant seconds k ∷ []))
            (sym (write_job-rewrite json_bytes k.id _ t w)) (Holds-took k c t p))
        (λ k ks c t stop p. p) js claimed table out table' h a
