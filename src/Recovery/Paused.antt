-- ===== src/Recovery/Paused.antt =====
-- recovery.py, recover_unknown_acceptance: the pause that a pass leaves is the one that is owed.
use parliament.Base.{
  Bool-cases, find, select, not, Result, ok, err, >>=-eq-ok, ok-injective, ℕ, String, ◌≡◌, refl,
  sym, ap, ◌∙◌, subst, ◌⊎◌, inl, inr, Bool, true, false, Option, none, some, [], ◌∷◌, str_eq,
}
use parliament.Value.{Value, end, obj}
use parliament.Job.{Job, polling, same_state, state_of_name}
use parliament.Job.Update.{updated_job-state}
use parliament.Jobs.{Jobs}
use parliament.Jobs.Rows.{rewrite}
use parliament.Jobs.Holding.{update_job-row}
use parliament.Artifacts.{Artifact, Artifacts, get_artifact, invalidate_artifact, put_artifact}
use parliament.Artifacts.Selection.{Distinct, get-put_artifact}
use parliament.Artifacts.Current.{get-invalidate_artifact}
use parliament.Artifacts.Unicity.{invalidate_artifact-Distinct, put_artifact-Distinct}
use parliament.Execution.Wave.{
  Outcome, Digest, paused_state, pause_unknown_acceptance, pause_payload,
}
use parliament.Recovery.{
  Pass, recoverable, accepted, pause_for, first_of, recover_unknown_acceptance,
}
use parliament.Recovery.Passed.{
  Passed, submitted, resumed, recover_unknown_acceptance-Passed, returned,
}

abbrev payload_of : Option Artifact → Option Value
payload_of none = none
payload_of (some a) = some a.payload

-- the payload of the current control artifact, if there is one
abbrev pub standing_pause : Artifacts → Option Value
standing_pause rows = payload_of (get_artifact "control" "pause" rows)

-- the pause for the first job that is still to be recovered, if there is one
abbrev pub owed_pause : ℕ → Option Job → Option Value
owed_pause now none = none
owed_pause now (some j) = some (pause_payload j.id now)

paused-Distinct :
    (digest : Digest) (id : String) (now : ℕ) (rows rows₁ : Artifacts)
    → Distinct rows
    → pause_unknown_acceptance digest id now rows ≡ ok rows₁
    → Distinct rows₁ × (standing_pause rows₁ ≡ some (pause_payload id now))
unfolding pause_unknown_acceptance
paused-Distinct digest id now rows rows₁ d h =
    let (x, g, k) =
      >>=-eq-ok (put_artifact digest "control" "pause" (obj end) (pause_payload id now) rows) _ h in
    let e = ok-injective k in
    (
      subst Distinct e
          (put_artifact-Distinct digest "control" "pause" "" "" (obj end) (pause_payload id now)
            rows x.0 x.1 d g).0,
      subst (λ (y : Artifacts). standing_pause y ≡ some (pause_payload id now)) e
          (ap payload_of (
            get-put_artifact digest "control" "pause" (obj end) (pause_payload id now) rows x.0 x.1
              d g)),
    )

pause_for-owed :
    (digest : Digest) (o : Option Job) (now : ℕ) (rows rows' : Artifacts) (table table' : Jobs)
    → Distinct rows
    → pause_for digest o now (invalidate_artifact "control" "pause" rows) table
      ≡ ((rows', table'), ok true)
    → (table ≡ table') × (standing_pause rows' ≡ owed_pause now o)
unfolding pause_for
pause_for-owed digest none now rows rows' table table' d h =
    let e = ap (λ (y : Outcome Bool). y.0) h in
    (
      ap (λ (y : Artifacts × Jobs). y.1) e,
      subst (λ (y : Artifacts). standing_pause y ≡ none) (ap (λ (y : Artifacts × Jobs). y.0) e)
          (ap payload_of (get-invalidate_artifact "control" "pause" "" "" rows (λ p. cc)).0),
    )
pause_for-owed digest (some j) now rows rows' table table' d h =
    paused (pause_unknown_acceptance digest j.id now cleared) refl h
  where
    cleared : Artifacts
    cleared = invalidate_artifact "control" "pause" rows

    paused :
        (r : Result Artifacts)
        → pause_unknown_acceptance digest j.id now cleared ≡ r
        → paused_state cleared table true r ≡ ((rows', table'), ok true)
        → (table ≡ table') × (standing_pause rows' ≡ some (pause_payload j.id now))
    paused (err e) g k = unfold paused_state in absurd (let x = returned k in cc)
    paused (ok rows₁) g k =
        let e = ap (λ (y : Outcome Bool). y.0) (unfold paused_state in k) in
        (
          ap (λ (y : Artifacts × Jobs). y.1) e,
          subst (λ (y : Artifacts). standing_pause y ≡ some (pause_payload j.id now))
              (ap (λ (y : Artifacts × Jobs). y.0) e)
              (paused-Distinct digest j.id now cleared rows₁
                (invalidate_artifact-Distinct "control" "pause" rows d) g).1,
        )

-- The first job to recover after the row of one job was written: the first other one.
first_left :
    (p : Job → Bool) (id : String) (new : Job) (table : Jobs)
    → p new ≡ false
    → find (λ k. not (str_eq k.id id)) (select p table) ≡ first_of (select p (rewrite id new table))
first_left p id new [] n = refl
first_left p id new (k ∷ ks) n = elim (Bool-cases (str_eq k.id id)) [
  | inl same ↦ elim (Bool-cases (p k)) [
    | inl yes' ↦ rw (same, yes', same, n) (first_left p id new ks n)
    | inr no' ↦ rw (same, no', n) (first_left p id new ks n)
  ]
  | inr other ↦ elim (Bool-cases (p k)) [
    | inl yes' ↦ rw (other, yes', other) refl
    | inr no' ↦ rw (other, no') (first_left p id new ks n)
  ]
]

polled-settled :
    (signature : String) (scanning : Job → ℕ) (j : Job)
    → j.state ≡ polling
    → recoverable signature scanning j ≡ false
unfolding recoverable same_state
polled-settled signature scanning j h = rw h refl

-- After a pass that returns True, on a table of distinct artifact versions, the current pause names
-- the first job that the pass could still recover: deferred, of unknown acceptance, with the signature
-- as its expected model and under no running lease at the reading for it. Where no such job is left
-- there is no current pause.
pub recover_unknown_acceptance-owed :
    (json_bytes : Job → ℕ) (digest : Digest) (signature : String) (p : Pass)
    (rows rows' : Artifacts) (table table' : Jobs)
    → Distinct rows
    → recover_unknown_acceptance json_bytes digest signature p (rows, table)
      ≡ ((rows', table'), ok true)
    → standing_pause rows'
      ≡ owed_pause p.pausing_again (first_of (select (recoverable signature p.scanning) table'))
unfolding state_of_name
recover_unknown_acceptance-owed json_bytes digest signature p rows rows' table table' d h =
    passed
      (recover_unknown_acceptance-Passed json_bytes digest signature p rows rows' table table' h)
  where
    scan : Jobs → Jobs
    scan t = select (recoverable signature p.scanning) t

    passed :
        Passed json_bytes digest signature p (scan table) rows rows' table table'
        → standing_pause rows' ≡ owed_pause p.pausing_again (first_of (scan table'))
    passed (resumed pause _ _ k) =
        let (e, q) =
          pause_for-owed digest (first_of (scan table)) p.pausing_again rows rows' table table' d
            k in
        q ∙ ap (λ (t : Jobs). owed_pause p.pausing_again (first_of (scan t))) e
    passed (submitted j remote_id rows₁ table₁ _ _ b u k) =
        let (e, q) =
          pause_for-owed digest _ p.pausing_again rows₁ rows' table₁ table' (kept j rows₁ b) k in
        let c = accepted p.polling_from j remote_id in
        let r = update_job-row json_bytes p.updating j.id c table table₁ u in
        let s = updated_job-state r.old c p.updating "polling" polling r.updated refl refl in
        let f =
          first_left (recoverable signature p.scanning) j.id r.new table
            (polled-settled signature p.scanning r.new s) in
        q
        ∙ ap (owed_pause p.pausing_again)
            (f ∙ ap (λ (t : Jobs). first_of (scan t)) (sym r.written ∙ e))
      where
        kept :
            (j : Job) (rows₁ : Artifacts)
            → (rows₁ ≡ rows) ⊎ (pause_unknown_acceptance digest j.id p.pausing rows ≡ ok rows₁)
            → Distinct rows₁
        kept j rows₁ (inl same) = subst Distinct (sym same) d
        kept j rows₁ (inr put) = (paused-Distinct digest j.id p.pausing rows rows₁ d put).0
