-- ===== src/Recovery/Declined.antt =====
-- recovery.py, recover_unknown_acceptance: why a pass returns False.
use parliament.Base.{
  Bool-cases, ok-injective, select, Result, ok, err, ℕ, String, ◌≡◌, refl, ap, inl, inr, Bool, true,
  false, Option, none, some, [], ◌∷◌,
}
use parliament.Value.{Fields}
use parliament.Job.{Job}
use parliament.Jobs.{Jobs}
use parliament.Artifacts.{Artifact, Artifacts, get_artifact}
use parliament.Execution.Wave.{Outcome, Digest, paused_state, pause_unknown_acceptance}
use parliament.Recovery.{
  Pass, recoverable, payload_field, foreign_pause, named_job, prior_job, is_settled, ready_matches,
  pause_for, after_update, after_submit, after_pause, after_ready, resume_settled, recover_job,
  job_to_recover, first_of, recover_unknown_acceptance,
}
use parliament.Recovery.Passed.{returned}

-- the jobs that a pass may recover
abbrev pub uncertain_of : String → Pass → Jobs → Jobs
uncertain_of signature p table = select (recoverable signature p.scanning) table

-- The reasons to return False: a pause for another reason; no pause, and no job to recover; a pause
-- whose job is neither to be recovered nor polled; a client whose answer does not match.
pub data Declined (signature : String) (p : Pass) (rows : Artifacts) (table : Jobs) : Type 0 where
  foreign :
      foreign_pause (get_artifact "control" "pause" rows) ≡ true → Declined signature p rows table
  nothing_left :
      get_artifact "control" "pause" rows ≡ none
      → uncertain_of signature p table ≡ []
      → Declined signature p rows table
  unsettled :
      (pause : Artifact)
      → get_artifact "control" "pause" rows ≡ some pause
      → named_job (payload_field "jobId" pause) (uncertain_of signature p table) ≡ none
      → is_settled (prior_job (payload_field "jobId" pause) table) ≡ false
      → Declined signature p rows table
  unready :
      (ready : Fields)
      → p.ready ≡ ok ready
      → ready_matches signature ready ≡ false
      → Declined signature p rows table

-- a computation that may raise, but does not return False
abbrev NeverFalse : Outcome Bool → Type 0
NeverFalse o = o.1 ≡ ok false → ⊥

pause_for-never :
    (digest : Digest) (o : Option Job) (now : ℕ) (rows : Artifacts) (table : Jobs)
    → NeverFalse (pause_for digest o now rows table)
unfolding pause_for
pause_for-never digest none now rows table h = absurd (let x = ok-injective h in cc)
pause_for-never digest (some j) now rows table h =
    paused (pause_unknown_acceptance digest j.id now rows) h
  where
    paused : (r : Result Artifacts) → (paused_state rows table true r).1 ≡ ok false → ⊥
    paused (err e) k = unfold paused_state in let x = k in cc
    paused (ok rows₁) k = unfold paused_state in let x = ok-injective k in cc

module _ (json_bytes : Job → ℕ) (digest : Digest) (signature : String) (p : Pass) (j : Job)
    (uncertain : Jobs) (rows : Artifacts) (table : Jobs) where
  after_update-never :
      (r : Result Jobs)
      → NeverFalse (after_update json_bytes digest signature p j uncertain rows table r)
  unfolding after_update
  after_update-never (err e) h = cc
  after_update-never (ok table₁) h = pause_for-never digest _ _ _ table₁ h

  after_submit-never :
      (r : Result String)
      → NeverFalse (after_submit json_bytes digest signature p j uncertain rows table r)
  unfolding after_submit
  after_submit-never (err e) h = cc
  after_submit-never (ok remote_id) h = after_update-never _ h

module _ (json_bytes : Job → ℕ) (digest : Digest) (signature : String) (p : Pass) (uncertain : Jobs)
    (rows : Artifacts) (table : Jobs) where
  after_pause-never :
      (j : Job) (r : Result Artifacts)
      → NeverFalse (after_pause json_bytes digest signature p j uncertain rows table r)
  unfolding after_pause
  after_pause-never j (err e) h = cc
  after_pause-never j (ok rows₁) h =
      after_submit-never json_bytes digest signature p j uncertain rows₁ table _ h

first_of-none : (js : Jobs) → first_of js ≡ none → js ≡ []
first_of-none [] h = refl
first_of-none (j ∷ js) h = cc

-- A pass that returns False leaves everything as it was, for one of the reasons.
pub recover_unknown_acceptance-Declined :
    (json_bytes : Job → ℕ) (digest : Digest) (signature : String) (p : Pass) (rows : Artifacts)
    (table : Jobs) (s' : Artifacts × Jobs)
    → recover_unknown_acceptance json_bytes digest signature p (rows, table) ≡ (s', ok false)
    → ((rows, table) ≡ s') × Declined signature p rows table
unfolding recover_unknown_acceptance
recover_unknown_acceptance-Declined json_bytes digest signature p rows table s' h =
    elim (Bool-cases (foreign_pause (get_artifact "control" "pause" rows))) [
      | inl yes' ↦ (ap (λ (o : Outcome Bool). o.0) (rw yes' at h), foreign yes')
      | inr own ↦ recovered (get_artifact "control" "pause" rows) _ refl refl (rw own at h)
    ]
  where
    uncertain : Jobs
    uncertain = uncertain_of signature p table

    readied :
        (pause : Option Artifact) (j : Job) (r : Result Fields)
        → p.ready ≡ r
        → after_ready json_bytes digest signature pause p j uncertain rows table r ≡ (s', ok false)
        → ((rows, table) ≡ s') × Declined signature p rows table
    readied pause j (err e) g k = unfold after_ready in absurd (let x = returned k in cc)
    readied pause j (ok ready) g k =
        unfold after_ready in
        elim (Bool-cases (ready_matches signature ready)) [
          | inl fine ↦ absurd (accepts j _ (rw fine at k))
          | inr other ↦ (ap (λ (o : Outcome Bool). o.0) (rw other at k), unready ready g other)
        ]
      where
        accepts :
            (j : Job) (r : Result Artifacts)
            → after_pause json_bytes digest signature p j uncertain rows table r ≡ (s', ok false)
            → ⊥
        accepts j r k =
            after_pause-never json_bytes digest signature p uncertain rows table j r (returned k)

    recovered :
        (pause : Option Artifact) (o : Option Job)
        → get_artifact "control" "pause" rows ≡ pause
        → job_to_recover json_bytes digest signature pause uncertain ≡ o
        → recover_job json_bytes digest signature pause p o uncertain rows table ≡ (s', ok false)
        → ((rows, table) ≡ s') × Declined signature p rows table
    recovered none none a c k =
        unfold recover_job job_to_recover in
        (ap (λ (o : Outcome Bool). o.0) k, nothing_left a (first_of-none uncertain c))
    recovered (some pause) none a c k =
        unfold recover_job resume_settled job_to_recover in
        elim (Bool-cases (is_settled (prior_job (payload_field "jobId" pause) table))) [
          | inl before ↦ absurd (pause_for-never digest _ _ _ table (returned (rw before at k)))
          | inr other ↦ (ap (λ (o : Outcome Bool). o.0) (rw other at k), unsettled pause a c other)
        ]
    recovered none (some j) a c k = unfold recover_job in readied none j p.ready refl k
    recovered (some pause) (some j) a c k =
        unfold recover_job in readied (some pause) j p.ready refl k
