-- ===== src/Receipts/Saved.antt =====
-- receipts.py, save_receipts: what the row of each job holds after the wave was saved.
use parliament.Base.{
  All-of_map, ||-eq-false, ok-injective, str_eq_comm, All, ok, >>=-eq-ok, ℕ, ◌+◌, String, ◌≡◌, ap,
  ◌∙◌, subst, false, none, some, List, [], ◌∷◌, map, str_eq,
}
use parliament.Job.{Job}
use parliament.Jobs.{Jobs, read_job, update_leased, update_leased_loop}
use parliament.Jobs.Rows.{Unique, has_id}
use parliament.Jobs.Lookups.{Stands}
use parliament.Jobs.Leases.{update_leased-now, update_leased_loop-nothing}
use parliament.Execution.{Factory}
use parliament.Execution.Wave.{LeasedChange}
use parliament.Receipts.{
  Response, receipt_of, receipt_fields, releases, receipt_loop, commit_receipts, save_receipts,
}
use parliament.Receipts.Rows.{jobs_of, AllSaved, receipt-SavedRow, SavedRow-kept}
use parliament.Jobs.Turns.{update_leased_loop-Turn}
use parliament.Jobs.Unnamed.{Unnamed, update_leased_loop-keeps}

module _ (json_bytes : Job → ℕ) (owner : String) (t : ℕ) where
  -- the changes of the loop go to the ids of the jobs
  receipt_loop-Unnamed :
      (until : ℕ) (id : String) (rs : List (Job × Response)) (changes : List LeasedChange)
      (done : List (Job × Response))
      → has_id id (jobs_of rs) ≡ false
      → receipt_loop until rs ≡ ok (changes, done)
      → Unnamed id changes
  unfolding receipt_loop
  receipt_loop-Unnamed until id [] changes done n h =
      subst (Unnamed id)
        (ap (λ (x : List LeasedChange × List (Job × Response)). x.0) (ok-injective h)) tt
  receipt_loop-Unnamed until id ((j, r) ∷ rs) changes done n h =
      let (k, g, h1) = >>=-eq-ok (receipt_of r.state) _ h in
      let (rest, g2, h2) = >>=-eq-ok (receipt_loop until rs) _ h1 in
      let (here, later) = ||-eq-false (str_eq j.id id) (has_id id (jobs_of rs)) n in
      subst (Unnamed id)
        (ap (λ (x : List LeasedChange × List (Job × Response)). x.0) (ok-injective h2))
        ((str_eq_comm id j.id ∙ here, receipt_loop-Unnamed until id rs rest.0 rest.1 later g2))

  receipts-AllSaved :
      (until : ℕ) (rs : List (Job × Response)) (changes : List LeasedChange)
      (dones : List (Job × Response)) (done table out table' : Jobs)
      → Unique (jobs_of rs)
      → Stands table (jobs_of rs)
      → receipt_loop until rs ≡ ok (changes, dones)
      → update_leased_loop json_bytes owner t changes done table ≡ ok (out, table')
      → AllSaved table' rs
  unfolding receipt_loop
  receipts-AllSaved until [] changes dones done table out table' u a h k = tt
  receipts-AllSaved until ((j, r) ∷ rs) changes dones done table out table' u a h k =
      let (receipt, g, h1) = >>=-eq-ok (receipt_of r.state) _ h in
      let (rest, g2, h2) = >>=-eq-ok (receipt_loop until rs) _ h1 in
      let c = receipt_fields until j r receipt in
      let e = ap (λ (x : List LeasedChange × List (Job × Response)). x.0) (ok-injective h2) in
      let m =
        update_leased_loop-Turn json_bytes owner t j (jobs_of rs) c (releases receipt) rest.0 done
          table out table' a u.0 (rw (← e) at k) in
      let kept =
        update_leased_loop-keeps json_bytes owner t j.id rest.0 m.done m.after out table'
          (receipt_loop-Unnamed until j.id rs rest.0 rest.1 u.0 g2) m.goes_on in
      (
        SavedRow-kept m.after table' j r kept
            (receipt-SavedRow json_bytes owner t until j r receipt m.new m.after g m.updated m.row),
        receipts-AllSaved until rs rest.0 rest.1 m.done m.after out table' u.1 m.stands g2
            m.goes_on,
      )

-- After a wave of responses is saved, to jobs with distinct ids that stand in the table as they were
-- claimed, each job has the remote id of its response, or its old one where the response has none. One
-- that runs is polling and one that failed has failed, both without a lease, and a completed one is in
-- its old state, with the owner and the end of its old lease.
pub save_receipts-AllSaved :
    (json_bytes : Job → ℕ) (time : ℕ) (f : Factory) (now : ℕ)
    (responses done : List (Job × Response)) (table table' : Jobs)
    → Unique (map (λ p. p.0) responses)
    → All (λ p. read_job p.0.id table ≡ some p.0) responses
    → save_receipts json_bytes time f now responses table ≡ ok (done, table')
    → AllSaved table' responses
unfolding save_receipts
save_receipts-AllSaved json_bytes time f now responses done table table' u a h =
    let (p, g, h1) = >>=-eq-ok (receipt_loop (now + f.poll_seconds) responses) _ h in
    committed responses p.0 p.1 u
      (All-of_map (λ j. read_job j.id table ≡ some j) (λ q. q.0) responses a) g h1
  where
    committed :
        (rs : List (Job × Response)) (changes : List LeasedChange) (dones : List (Job × Response))
        → Unique (map (λ q. q.0) rs)
        → Stands table (jobs_of rs)
        → receipt_loop (now + f.poll_seconds) rs ≡ ok (changes, dones)
        → commit_receipts json_bytes time f dones changes table ≡ ok (done, table')
        → AllSaved table' rs
    committed rs [] dones v b g k =
        receipts-AllSaved json_bytes f.owner time (now + f.poll_seconds) rs [] dones [] table []
          table' v b g
          (update_leased_loop-nothing json_bytes f.owner time table (
            ap (λ (x : List (Job × Response) × Jobs). x.1)
              (ok-injective (unfold commit_receipts in k))))
    committed rs (c ∷ changes) dones v b g k =
        unfold commit_receipts in
        (let (q, l, m) =
            >>=-eq-ok (update_leased json_bytes time f.owner (c ∷ changes) none table) _ k in
          let e : q.1 ≡ table' = ap (λ (x : List (Job × Response) × Jobs). x.1) (ok-injective m) in
          receipts-AllSaved json_bytes f.owner time (now + f.poll_seconds) rs (c ∷ changes) dones []
            table q.0 table' v b g
            (subst
              (λ (x : Jobs).
                update_leased_loop json_bytes f.owner time (c ∷ changes) [] table ≡ ok (q.0, x))
              e (update_leased-now json_bytes time f.owner (c ∷ changes) table l)))
