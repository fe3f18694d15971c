-- ===== src/Recovery/Draining.antt =====
-- recovery.py, drain_unknown_acceptance: how many passes the loop makes, and when it stops.
use parliament.Base.{
  leb, leb→le, Bool-cases, &&-eq-true, ok-injective, Error, Result, ok, err, ℕ, zero, suc, ◌+◌, ◌≤◌,
  ◌<◌, String, ◌≡◌, ◌∙◌, refl, ap, subst, ◌⊎◌, inl, inr, Bool, true, false, ◌&&◌, arith,
}
use parliament.Job.{Job}
use parliament.Jobs.{Jobs}
use parliament.Artifacts.{Artifacts}
use parliament.Execution.Wave.{Outcome, Digest}
use parliament.Recovery.{
  Pass, recover_unknown_acceptance, drain_next, drain_loop, drain_unknown_acceptance,
}
use parliament.Recovery.Passed.{Passed, recover_unknown_acceptance-Passed}
use parliament.Recovery.Declined.{Declined, uncertain_of, recover_unknown_acceptance-Declined}

module _ (json_bytes : Job → ℕ) (digest : Digest) (signature : String) (passes : ℕ → Pass) where
  -- The passes that returned True, from one state to another, the first of them with number `from`.
  pub data Recoveries (from : ℕ) (s : Artifacts × Jobs) : ℕ → Artifacts × Jobs → Type 0 where
    none_yet : Recoveries from s from s
    one_more :
        {n : ℕ} {t u : Artifacts × Jobs}
        → Recoveries from s n t
        → recover_unknown_acceptance json_bytes digest signature (passes n) t ≡ (u, ok true)
        → Passed json_bytes digest signature
            (passes n)
            (uncertain_of signature (passes n) t.1)
            t.0
            u.0
            t.1
            u.1
        → Recoveries from s (suc n) u

  -- the loop stops at its limit, or because a pass declined and left everything as it was
  abbrev pub Stops : ℕ → ℕ → Artifacts × Jobs → Artifacts × Jobs → Type 0
  Stops limit n t s' =
      (t ≡ s') × ((n ≡ limit) ⊎ ((n < limit) × Declined signature (passes n) t.0 t.1))

  drain_loop-Recoveries :
      (start : ℕ) (s₀ : Artifacts × Jobs) (left n : ℕ) (s s' : Artifacts × Jobs) (count : ℕ)
      → Recoveries start s₀ n s
      → drain_loop json_bytes digest signature passes left n s ≡ (s', ok count)
      → (t : Artifacts × Jobs) × Recoveries start s₀ count t × Stops (n + left) count t s'
  unfolding drain_loop
  drain_loop-Recoveries start s₀ zero n s s' count r h =
      let e : n ≡ count = ok-injective (ap (λ (o : Outcome ℕ). o.1) h) in
      let f : s ≡ s' = ap (λ (o : Outcome ℕ). o.0) h in
      (s, subst (λ (k : ℕ). Recoveries start s₀ k s) e r, (f, inl (omega (arith, e))))
  drain_loop-Recoveries start s₀ (suc left) n s s' count r h =
      step (recover_unknown_acceptance json_bytes digest signature (passes n) s) refl h
        (λ u. drain_loop-Recoveries start s₀ left (suc n) u s' count)
    where
      step :
          (o : Outcome Bool)
          → recover_unknown_acceptance json_bytes digest signature (passes n) s ≡ o
          → drain_next n o (drain_loop json_bytes digest signature passes left (suc n))
            ≡ (s', ok count)
          → ((u : Artifacts × Jobs)
              → Recoveries start s₀ (suc n) u
              → drain_loop json_bytes digest signature passes left (suc n) u ≡ (s', ok count)
              → (t : Artifacts × Jobs) × Recoveries start s₀ count t
                × Stops (suc n + left) count t s')
          → (t : Artifacts × Jobs) × Recoveries start s₀ count t × Stops (n + suc left) count t s'
      step (u, err e) q k ih = absurd (unfold drain_next in stuck e (ap (λ (o : Outcome ℕ). o.1) k))
        where
          stuck : (e : Error) → ◌≡◌ {A = Result ℕ} (err e) (ok count) → ⊥
          stuck e x = cc
      step (u, ok false) q k ih =
          let e : n ≡ count = unfold drain_next in ok-injective (ap (λ (o : Outcome ℕ). o.1) k) in
          let f : u ≡ s' = unfold drain_next in ap (λ (o : Outcome ℕ). o.0) k in
          let d =
            recover_unknown_acceptance-Declined json_bytes digest signature (passes n) s.0 s.1 u
              q in
          (
            s,
            subst (λ (i : ℕ). Recoveries start s₀ i s) e r,
            (d.0 ∙ f, inr (omega (arith, e), rw (← e) d.1)),
          )
      step (u, ok true) q k ih =
          let p =
            recover_unknown_acceptance-Passed json_bytes digest signature (passes n) s.0 u.0 s.1 u.1
              q in
          let (t, more, stops) = ih u (one_more r q p) (unfold drain_next in k) in
          (t, more, widened t stops)
        where
          widened :
              (t : Artifacts × Jobs)
              → Stops (suc n + left) count t s'
              → Stops (n + suc left) count t s'
          widened t (f, inl a) = (f, inl (omega (arith, a)))
          widened t (f, inr (a, b)) = (f, inr (omega (arith, a), b))

  -- A drain that returns a count has made that many passes that returned True, at most its limit of 1
  -- to 64. In each of them either the job to recover was submitted and its update under the answered
  -- id committed, or the job of the pause was polled already, and the pause was withdrawn and set for
  -- the first other job to recover, if there is one. The last of them leaves the final state; and if
  -- they are fewer than the limit, the next pass declined there: for a pause of another reason, for no
  -- pause and no job to recover, for a pause whose job is neither to be recovered nor polled, or for an
  -- answer of the client that does not match.
  pub drain_unknown_acceptance-Recoveries :
      (limit count : ℕ) (s s' : Artifacts × Jobs)
      → drain_unknown_acceptance json_bytes digest signature passes limit s ≡ (s', ok count)
      → (1 ≤ limit)
        × (limit ≤ 64)
        × ((t : Artifacts × Jobs) × Recoveries 0 s count t × Stops limit count t s')
  unfolding drain_unknown_acceptance
  drain_unknown_acceptance-Recoveries limit count s s' h =
      elim (Bool-cases (leb 1 limit && leb limit 64)) [
        | inl fine ↦
            let (a, b) = &&-eq-true (leb 1 limit) (leb limit 64) fine in
            (
              leb→le 1 limit a,
              leb→le limit 64 b,
              subst
                  (λ (k : ℕ). (t : Artifacts × Jobs) × Recoveries 0 s count t × Stops k count t s')
                  (omega arith)
                  (drain_loop-Recoveries 0 s limit 0 s s' count none_yet (rw fine at h)),
            )
        | inr wrong ↦ absurd (let k = rw wrong at h in let x = ap (λ (o : Outcome ℕ). o.1) k in cc)
      ]
