-- ===== src/Jobs/Holding.antt =====
-- store.py, GraphStore.release, checkpoint and update_job: who may write a job.
use parliament.Base.{
  subst, lt→ltb, ok, err, >>=-eq-ok, ℕ, ◌+◌, ◌<◌, String, ◌≡◌, refl, sym, ap, ◌∙◌, Bool, true,
  false, Option, none, some, List, [], ◌∷◌, active_lease, stale_lease, ok-injective, str_eq,
  >>-eq-ok, require, not,
}
use parliament.Value.{Reading, store_clock}
use parliament.Job.{leased, updated_job, Job, truthy, leased, Changes, require_lease, holds_lease}
use parliament.Job.Succession.{updated_job-Succeeds}
use parliament.Jobs.{
  Jobs, read_job, release_job, claim, duration, update_leased, update_leased_loop, release,
  checkpoint, update_job, require_job,
}
use parliament.Jobs.Rows.{has_id, write_job-rewrite, read_job-id, All-read_job, rewrite}
use parliament.Jobs.Lookups.{read_job-rewrite_self, read_job-rewrite_ne}
use parliament.Jobs.Leases.{update_leased_loop-cons, update_leased_loop-nil, update_leased-now}
use parliament.Jobs.Claiming.{claim_loop-Holds}
use parliament.Jobs.Growth.{require_job-eq-ok}
use parliament.Jobs.Exclusion.{claim-Claimed, Holds-none, label_valid-truthy}

-- A batch whose first job is not under the owner's lease is refused.
stale_refused :
    (json_bytes : Job → ℕ) (time : ℕ) (owner id : String) (c : Changes) (release : Bool)
    (rest : List (String × Changes × Bool)) (now : Option Reading) (table : Jobs) (j : Job) (t : ℕ)
    → store_clock time now ≡ ok t
    → read_job id table ≡ some j
    → holds_lease owner t j ≡ false
    → update_leased json_bytes time owner ((id, c, release) ∷ rest) now table ≡ err stale_lease
unfolding update_leased update_leased_loop require_lease
stale_refused json_bytes time owner id c release rest now table j t clock found lost =
    rw (clock, found, lost)

-- the row that a release leaves has no owner
released :
    (json_bytes : Job → ℕ) (time : ℕ) (id owner : String) (now : Option Reading) (c : Changes)
    (table out table' : Jobs)
    → update_leased json_bytes time owner ((id, c, true) ∷ []) now table ≡ ok (out, table')
    → (j : Job) × (read_job id table' ≡ some j) × (j.lease_owner ≡ none)
unfolding update_leased
released json_bytes time id owner now c table out table' h =
    let (t, _, h1) = >>=-eq-ok (store_clock time now) _ h in
    let (ch, more) =
      update_leased_loop-cons json_bytes owner t id c true [] [] table out table' h1 in
    let s = updated_job-Succeeds ch.old c t ch.new ch.updated in
    let e : ch.after ≡ table' =
      unfold update_leased_loop in ap (λ (x : Jobs × Jobs). x.1) (ok-injective more) in
    let w = write_job-rewrite json_bytes id (release_job true ch.new) table ch.written in
    (
      release_job true ch.new,
      rw (← e, w)
          (read_job-rewrite_self id (release_job true ch.new) ch.old table
            (s.id ∙ read_job-id id table ch.old ch.found) ch.found),
      refl,
    )

no_owner_no_lease :
    (owner : String) (now : ℕ) (j : Job) → j.lease_owner ≡ none → holds_lease owner now j ≡ false
unfolding holds_lease
no_owner_no_lease owner now j e = rw e

leased_of_held :
    (owner : String) (t seconds later : ℕ) (j : Job)
    → truthy (some owner) ≡ true
    → later < t + seconds
    → (j.lease_owner ≡ some owner) × (j.lease_until ≡ t + seconds)
    → leased later j ≡ true
unfolding leased
leased_of_held owner t seconds later j o soon (e, f) = rw (e, o, f) (lt→ltb _ _ soon)

-- After a release the worker's next checkpoint of the job is refused: it has to claim it again.
pub release_revokes :
    (json_bytes : Job → ℕ) (time time₂ : ℕ) (id owner : String) (now now₂ : Option Reading)
    (c c₂ : Changes) (table table' : Jobs) (t₂ : ℕ)
    → store_clock time₂ now₂ ≡ ok t₂
    → release json_bytes time id owner now c table ≡ ok table'
    → checkpoint json_bytes time₂ id owner now₂ c₂ table' ≡ err stale_lease
unfolding release checkpoint
release_revokes json_bytes time time₂ id owner now now₂ c c₂ table table' t₂ clock h =
    let (p, h1, e) =
      >>=-eq-ok (update_leased json_bytes time owner ((id, c, true) ∷ []) now table) _ h in
    let (j, found, free) = released json_bytes time id owner now c table p.0 p.1 h1 in
    stale_refused json_bytes time₂ owner id c₂ false [] now₂ table' j t₂ clock
      (rw (ok-injective e) at found) (no_owner_no_lease owner t₂ j free)

-- While a claim's lease runs, `update_job` refuses every claimed job.
pub claim_shields :
    (json_bytes : Job → ℕ) (time : ℕ) (owner : String) (lease : Reading) (limit : ℕ)
    (now : Option Reading) (table out table' : Jobs) (t : ℕ) (later : ℕ) (id : String) (j : Job)
    (c : Changes)
    → claim json_bytes time owner lease limit now table ≡ ok (out, table')
    → store_clock time now ≡ ok t
    → later < t + duration lease
    → has_id id out ≡ true
    → read_job id table' ≡ some j
    → update_job json_bytes later id c table' ≡ err active_lease
unfolding update_job
claim_shields json_bytes time owner lease limit now table out table' t later id j c h clock soon
      mine found =
    let cl = claim-Claimed json_bytes time owner lease limit now table out table' h in
    let e : cl.instant ≡ t = ok-injective (sym cl.clock ∙ clock) in
    let rows =
      claim_loop-Holds json_bytes owner cl.instant (duration lease) limit _ [] table out table'
        cl.looped (Holds-none owner cl.instant (duration lease) table) in
    let same = read_job-id id table' j found in
    let held = All-read_job _ id table' j rows found (rw same mine) in
    rw (
      found,
      leased_of_held owner t (duration lease) later j (label_valid-truthy owner cl.named) soon
          (rw e at held),
    )

-- The row that a release leaves: the update of the row that was there, without a lease.
pub release-row :
    (json_bytes : Job → ℕ) (time : ℕ) (id owner : String) (c : Changes) (table table' : Jobs)
    → release json_bytes time id owner none c table ≡ ok table'
    → (old : Job) × (new : Job) × (updated_job old c time ≡ ok new)
      × (read_job id table' ≡ some (release_job true new))
unfolding release
release-row json_bytes time id owner c table table' h =
    let (p, g, h1) =
      >>=-eq-ok (update_leased json_bytes time owner ((id, c, true) ∷ []) none table) _ h in
    let k = update_leased-now json_bytes time owner ((id, c, true) ∷ []) table g in
    let (ch, more) =
      update_leased_loop-cons json_bytes owner time id c true [] [] table p.0 p.1 k in
    let s = updated_job-Succeeds ch.old c time ch.new ch.updated in
    let e : ch.after ≡ table' =
      update_leased_loop-nil json_bytes owner time _ ch.after p.0 p.1 more ∙ ok-injective h1 in
    let w = write_job-rewrite json_bytes id (release_job true ch.new) table ch.written in
    (
      ch.old,
      ch.new,
      ch.updated,
      subst (λ (x : Jobs). read_job id x ≡ some (release_job true ch.new)) (sym w ∙ e)
          (read_job-rewrite_self id (release_job true ch.new) ch.old table
            (s.id ∙ read_job-id id table ch.old ch.found) ch.found),
    )

-- The rows that update_job leaves: the update under its id, and every other one.
pub record Updated (json_bytes : Job → ℕ) (time : ℕ) (id : String) (c : Changes)
    (table table' : Jobs) : Type 0 where
  pub old : Job
  pub new : Job
  pub updated : updated_job old c time ≡ ok new
  pub written : table' ≡ rewrite id new table
  pub row : read_job id table' ≡ some new
  pub others : (x : String) → str_eq x id ≡ false → read_job x table' ≡ read_job x table

pub update_job-row :
    (json_bytes : Job → ℕ) (time : ℕ) (id : String) (c : Changes) (table table' : Jobs)
    → update_job json_bytes time id c table ≡ ok table'
    → Updated json_bytes time id c table table'
unfolding update_job
update_job-row json_bytes time id c table table' h =
    let (j, g1, h1) = >>=-eq-ok (require_job (read_job id table)) _ h in
    let (_, h2) = >>-eq-ok (require (not (leased time j)) _) _ h1 in
    let (j', g3, h3) = >>=-eq-ok (updated_job j c time) _ h2 in
    let found = require_job-eq-ok (read_job id table) j g1 in
    let s = (updated_job-Succeeds j c time j' g3).id ∙ read_job-id id table j found in
    let w = write_job-rewrite json_bytes id j' table h3 in
    record {
      old = j;
      new = j';
      updated = g3;
      written = w;
      row =
          subst (λ (x : Jobs). read_job id x ≡ some j') (sym w)
            (read_job-rewrite_self id j' j table s found);
      others = λ x ne.
          subst (λ (y : Jobs). read_job x y ≡ read_job x table) (sym w)
            (read_job-rewrite_ne x id j' table s ne);
    }
