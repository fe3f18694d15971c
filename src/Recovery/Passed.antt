-- ===== src/Recovery/Passed.antt =====
-- recovery.py, recover_unknown_acceptance: the two ways in which a pass returns True.
use parliament.Base.{
  ◌⊎◌, find, not, Bool-cases, ok-injective, select, Result, ok, err, ℕ, String, ◌≡◌, refl, sym, ap,
  inl, inr, Bool, true, Option, none, some, str_eq,
}
use parliament.Value.{Fields}
use parliament.Job.{Job}
use parliament.Jobs.{Jobs, update_job}
use parliament.Artifacts.{Artifact, Artifacts, get_artifact, invalidate_artifact}
use parliament.Execution.Wave.{Outcome, Digest, pause_unknown_acceptance}
use parliament.Recovery.{
  Pass, recoverable, payload_field, foreign_pause, prior_job, is_settled, ready_matches, accepted,
  pause_for, after_update, after_submit, after_pause, after_ready, resume_settled, recover_job,
  job_to_recover, first_of, recover_unknown_acceptance, pause_first,
}

pub returned : {o o' : Outcome Bool} → o ≡ o' → o.1 ≡ o'.1
returned h = ap (λ (y : Outcome Bool). y.1) h

module _ (json_bytes : Job → ℕ) (digest : Digest) (signature : String) where
  -- Either the job to recover was submitted and its update under the id of the answer committed, or
  -- the job of the pause was polled already; and the pause was withdrawn, and set for the first other
  -- job to recover, if there is one.
  pub data Passed (p : Pass) (uncertain : Jobs) (rows rows' : Artifacts) (table table' : Jobs)
      : Type 0 where
    submitted :
        (j : Job) (remote_id : String) (rows₁ : Artifacts) (table₁ : Jobs)
        → job_to_recover json_bytes digest signature (get_artifact "control" "pause" rows) uncertain
          ≡ some j
        → p.submit j.request j.idempotency_key ≡ ok remote_id
        → (rows₁ ≡ rows) ⊎ (pause_unknown_acceptance digest j.id p.pausing rows ≡ ok rows₁)
        → update_job json_bytes p.updating j.id (accepted p.polling_from j remote_id) table
          ≡ ok table₁
        → pause_for digest
            (find (λ k. not (str_eq k.id j.id)) uncertain)
            p.pausing_again
            (invalidate_artifact "control" "pause" rows₁)
            table₁
          ≡ ((rows', table'), ok true)
        → Passed p uncertain rows rows' table table'
    resumed :
        (pause : Artifact)
        → get_artifact "control" "pause" rows ≡ some pause
        → is_settled (prior_job (payload_field "jobId" pause) table) ≡ true
        → pause_for digest
            (first_of uncertain)
            p.pausing_again
            (invalidate_artifact "control" "pause" rows)
            table
          ≡ ((rows', table'), ok true)
        → Passed p uncertain rows rows' table table'

  module _ (p : Pass) (uncertain : Jobs) (rows rows' : Artifacts) (table table' : Jobs) where
    after_submit-Passed :
        (j : Job) (rows₁ : Artifacts) (r : Result String)
        → job_to_recover json_bytes digest signature (get_artifact "control" "pause" rows) uncertain
          ≡ some j
        → p.submit j.request j.idempotency_key ≡ r
        → (rows₁ ≡ rows) ⊎ (pause_unknown_acceptance digest j.id p.pausing rows ≡ ok rows₁)
        → after_submit json_bytes digest signature p j uncertain rows₁ table r
          ≡ ((rows', table'), ok true)
        → Passed p uncertain rows rows' table table'
    unfolding after_submit
    after_submit-Passed j rows₁ (err e) c a b h = absurd (let x = returned h in cc)
    after_submit-Passed j rows₁ (ok remote_id) c a b h = updated _ refl h
      where
        updated :
            (r : Result Jobs)
            → update_job json_bytes p.updating j.id (accepted p.polling_from j remote_id) table ≡ r
            → after_update json_bytes digest signature p j uncertain rows₁ table r
              ≡ ((rows', table'), ok true)
            → Passed p uncertain rows rows' table table'
        updated (err e) u k = unfold after_update in absurd (let x = returned k in cc)
        updated (ok table₁) u k =
            submitted j remote_id rows₁ table₁ c a b u (unfold after_update in k)

    after_pause-Passed :
        (j : Job) (pause : Option Artifact) (r : Result Artifacts)
        → job_to_recover json_bytes digest signature (get_artifact "control" "pause" rows) uncertain
          ≡ some j
        → pause_first json_bytes digest signature pause p j rows ≡ r
        → after_pause json_bytes digest signature p j uncertain rows table r
          ≡ ((rows', table'), ok true)
        → Passed p uncertain rows rows' table table'
    unfolding after_pause pause_first
    after_pause-Passed j pause (err e) c f h = absurd (let x = returned h in cc)
    after_pause-Passed j none (ok rows₁) c f h = after_submit-Passed j rows₁ _ c refl (inr f) h
    after_pause-Passed j (some _) (ok rows₁) c f h =
        after_submit-Passed j rows₁ _ c refl (inl (sym (ok-injective f))) h

    after_ready-Passed :
        (pause : Option Artifact) (j : Job) (r : Result Fields)
        → job_to_recover json_bytes digest signature (get_artifact "control" "pause" rows) uncertain
          ≡ some j
        → after_ready json_bytes digest signature pause p j uncertain rows table r
          ≡ ((rows', table'), ok true)
        → Passed p uncertain rows rows' table table'
    unfolding after_ready
    after_ready-Passed pause j (err e) c h = absurd (let x = returned h in cc)
    after_ready-Passed pause j (ok ready) c h = elim (Bool-cases (ready_matches signature ready)) [
      | inl fine ↦ after_pause-Passed j pause _ c refl (rw fine at h)
      | inr other ↦ absurd (let x = ok-injective (returned (rw other at h)) in cc)
    ]

    recover_job-Passed :
        (pause : Option Artifact) (o : Option Job)
        → get_artifact "control" "pause" rows ≡ pause
        → job_to_recover json_bytes digest signature (get_artifact "control" "pause" rows) uncertain
          ≡ o
        → recover_job json_bytes digest signature pause p o uncertain rows table
          ≡ ((rows', table'), ok true)
        → Passed p uncertain rows rows' table table'
    unfolding recover_job resume_settled
    recover_job-Passed (some pause) none a c h =
        elim (Bool-cases (is_settled (prior_job (payload_field "jobId" pause) table))) [
          | inl before ↦ resumed pause a before (rw before at h)
          | inr other ↦ absurd (let x = ok-injective (returned (rw other at h)) in cc)
        ]
    recover_job-Passed none none a c h = absurd (let x = ok-injective (returned h) in cc)
    recover_job-Passed none (some j) a c h = after_ready-Passed none j p.ready c h
    recover_job-Passed (some pause) (some j) a c h = after_ready-Passed (some pause) j p.ready c h

  pub recover_unknown_acceptance-Passed :
      (p : Pass) (rows rows' : Artifacts) (table table' : Jobs)
      → recover_unknown_acceptance json_bytes digest signature p (rows, table)
        ≡ ((rows', table'), ok true)
      → Passed p (select (recoverable signature p.scanning) table) rows rows' table table'
  unfolding recover_unknown_acceptance
  recover_unknown_acceptance-Passed p rows rows' table table' h =
      let pause = get_artifact "control" "pause" rows in
      let uncertain = select (recoverable signature p.scanning) table in
      elim (Bool-cases (foreign_pause pause)) [
        | inl foreign ↦ absurd (let x = ok-injective (returned (rw foreign at h)) in cc)
        | inr own ↦
            recover_job-Passed p uncertain rows rows' table table' pause
              (job_to_recover json_bytes digest signature pause uncertain) refl refl (rw own at h)
      ]
