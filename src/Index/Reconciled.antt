-- ===== src/Index/Reconciled.antt =====
-- index.py, reconcile: what is current afterwards rests on the sources and the candidate routing of
-- the moment.
use parliament.Base.{
  if◌then◌else◌, Bool-cases, str_eq_refl, ok-injective, All, All-map, ok, >>=-eq-ok, ℕ, String, ◌≡◌,
  refl, ap, subst, ◌⊎◌, inl, inr, Bool, true, false, ◌&&◌, ◌||◌, not, List, [], ◌∷◌, str_eq,
}
use parliament.Value.{Value, Fields}
use parliament.Value.Objects.{fields_of, and_then-eq-true}
use parliament.Job.{Job, obsolete, same_state, truthy, leased}
use parliament.Jobs.{Jobs}
use parliament.Jobs.Rows.{Unique}
use parliament.Jobs.Retiring.{Unlisted, Excuses}
use parliament.Sources.{Source}
use parliament.Artifacts.{Artifact, Artifacts}
use parliament.Retirement.{same_target}
use parliament.Retirement.Withdrawn.{targeted, WhenCurrent, retire_results-settles}
use parliament.Index.Families.{is_derived, families-All}
use parliament.Index.{
  dependencies_current, routing_current, fresh, stale_artifacts, stale_job, stale_jobs, families,
  reconcile, pop_snapshot,
}

-- the dependency names the sources as they are, by the routing contract of the moment
pub record IsSupported (fingerprint : Value → String) (sources : List Source) (kind : String)
    (dependency : Fields) : Type 0 where
  pub depends : dependencies_current fingerprint dependency sources ≡ ok true
  pub routed : routing_current kind dependency ≡ ok true

module _ (fingerprint : Value → String) (sources : List Source) where
  abbrev pub ArtifactIsSupported : Artifact → Type 0
  ArtifactIsSupported a =
      is_derived a.kind ≡ true → IsSupported fingerprint sources a.kind (fields_of a.dependency)

  -- a job that may still run, or has a result, is supported, unless someone holds it
  abbrev pub JobIsSupported : Job → Type 0
  JobIsSupported j =
      same_state j.state obsolete ≡ false
      → truthy j.lease_owner ≡ false
      → IsSupported fingerprint sources j.kind j.context

  fresh-IsSupported :
      (kind : String) (dependency : Fields) (snapshots : Artifacts)
      → fresh fingerprint kind dependency sources snapshots ≡ ok true
      → IsSupported fingerprint sources kind dependency
  unfolding fresh
  fresh-IsSupported kind dependency snapshots h =
      let (d, more) = and_then-eq-true _ _ h in
      let (r, _) = and_then-eq-true _ _ more in record { depends = d; routed = r }

  abbrev Settled : List (String × String) → Artifact → Type 0
  Settled targets a =
      IsSupported fingerprint sources a.kind (fields_of a.dependency) ⊎ (targeted targets a ≡ true)

  Settled-cons :
      (t : String × String) (targets : List (String × String)) (a : Artifact)
      → Settled targets a
      → Settled (t ∷ targets) a
  Settled-cons t targets a (inl s) = inl s
  Settled-cons t targets a (inr h) =
      inr (unfold targeted in or_right (same_target (a.kind, a.key) t) _ h)
    where
      or_right : (x y : Bool) → y ≡ true → (x || y) ≡ true
      or_right true y e = refl
      or_right false y e = e

  stale_artifacts-Settled :
      (rows snapshots left : Artifacts) (targets : List (String × String))
      → stale_artifacts fingerprint sources rows snapshots ≡ ok (targets, left)
      → All (Settled targets) rows
  unfolding stale_artifacts
  stale_artifacts-Settled [] snapshots left targets h = tt
  stale_artifacts-Settled (a ∷ rows) snapshots left targets h =
      let (keep, g, h1) =
        >>=-eq-ok (fresh fingerprint a.kind (fields_of a.dependency) sources snapshots) _ h in
      let next = if keep then snapshots else pop_snapshot a.kind a.key snapshots in
      let (p, k, h2) = >>=-eq-ok (stale_artifacts fingerprint sources rows next) _ h1 in
      let ih = stale_artifacts-Settled rows next p.1 p.0 k in
      subst (λ (ts : List (String × String)). All (Settled ts) (a ∷ rows))
        (ap (λ (x : List (String × String) × Artifacts). x.0) (ok-injective h2))
        (settle keep p.0 g ih)
    where
      settle :
          (keep : Bool) (ts : List (String × String))
          → fresh fingerprint a.kind (fields_of a.dependency) sources snapshots ≡ ok keep
          → All (Settled ts) rows
          → All (Settled (if keep then ts else (a.kind, a.key) ∷ ts)) (a ∷ rows)
      settle true ts g ih =
          (inl (fresh-IsSupported a.kind (fields_of a.dependency) snapshots g), ih)
      settle false ts g ih = (
        inr (unfold targeted in rw (str_eq_refl a.kind, str_eq_refl a.key) refl),
        All-map _ _ rows (Settled-cons (a.kind, a.key) ts) ih,
      )

  stale_job-kept :
      (snapshots : Artifacts) (j : Job)
      → stale_job fingerprint sources snapshots j ≡ ok false
      → JobIsSupported j
  unfolding stale_job
  stale_job-kept snapshots j h live free =
      let (keep, g, h1) =
        >>=-eq-ok (fresh fingerprint j.kind j.context sources snapshots) _ (rw live at h) in
      fresh-IsSupported j.kind j.context snapshots (kept keep g (ok-injective h1))
    where
      kept :
          (keep : Bool)
          → fresh fingerprint j.kind j.context sources snapshots ≡ ok keep
          → (not keep && not (truthy j.lease_owner)) ≡ false
          → fresh fingerprint j.kind j.context sources snapshots ≡ ok true
      kept true g e = g
      kept false g e = absurd (let f = rw free at e in cc)

  stale_jobs-Unlisted :
      (snapshots : Artifacts) (table : Jobs) (ids : List String)
      → stale_jobs fingerprint sources snapshots table ≡ ok ids
      → All (Unlisted JobIsSupported ids) table
  unfolding stale_jobs
  stale_jobs-Unlisted snapshots [] ids h = tt
  stale_jobs-Unlisted snapshots (j ∷ js) ids h =
      let (stale, g, h1) = >>=-eq-ok (stale_job fingerprint sources snapshots j) _ h in
      let (rest, k, h2) = >>=-eq-ok (stale_jobs fingerprint sources snapshots js) _ h1 in
      subst (λ (xs : List String). All (Unlisted JobIsSupported xs) (j ∷ js)) (ok-injective h2)
        (listed stale rest g (stale_jobs-Unlisted snapshots js rest k))
    where
      more :
          (xs : List String) (k : Job)
          → Unlisted JobIsSupported xs k
          → Unlisted JobIsSupported (j.id ∷ xs) k
      more xs k (inl s) = inl s
      more xs k (inr l) = inr (or_right (str_eq k.id j.id) _ l)
        where
          or_right : (x y : Bool) → y ≡ true → (x || y) ≡ true
          or_right true y e = refl
          or_right false y e = e

      listed :
          (stale : Bool) (xs : List String)
          → stale_job fingerprint sources snapshots j ≡ ok stale
          → All (Unlisted JobIsSupported xs) js
          → All (Unlisted JobIsSupported (if stale then j.id ∷ xs else xs)) (j ∷ js)
      listed true xs g ih = (inr (rw (str_eq_refl j.id) refl), All-map _ _ js (more xs) ih)
      listed false xs g ih = (inl (stale_job-kept snapshots j g), ih)

-- After a reconcile that commits on a table of unique ids, with no other write between its reads and
-- its commit, every current graph, community, answer
-- map or answer depends on the sources as they are and was routed by the contract of the moment,
-- and so does every job that is neither obsolete nor under a lease owner.
pub reconcile-AllSupported :
    (fingerprint : Value → String) (json_bytes : Job → ℕ) (time : ℕ) (sources : List Source)
    (rows : Artifacts) (table : Jobs) (n : ℕ) (rows' : Artifacts) (table' : Jobs)
    → Unique table
    → reconcile fingerprint json_bytes time sources (rows, table) ≡ ok (n, rows', table')
    → All (WhenCurrent (ArtifactIsSupported fingerprint sources)) rows'
      × All (JobIsSupported fingerprint sources) table'
unfolding reconcile
reconcile-AllSupported fingerprint json_bytes time sources rows table n rows' table' u h =
    let now = families rows in
    let (p, g, h1) = >>=-eq-ok (stale_artifacts fingerprint sources now now) _ h in
    let (ids, k, h2) = >>=-eq-ok (stale_jobs fingerprint sources p.1 table) _ h1 in
    retire_results-settles (ArtifactIsSupported fingerprint sources)
      (JobIsSupported fingerprint sources) json_bytes time p.0 ids rows table n rows' table' excuses
      u
      (All-map _ _ rows (λ r f c. derived r p.0 (f c))
        (families-All (Settled fingerprint sources p.0) rows
          (stale_artifacts-Settled fingerprint sources now now p.1 p.0 g)))
      (stale_jobs-Unlisted fingerprint sources p.1 table ids k) h2
  where
    excuses : Excuses (JobIsSupported fingerprint sources) time
    excuses = record {
      retired = λ j e live. absurd (let l = live in cc);
      busy = λ j e live free. absurd (unfold leased in let f = rw free at e in cc);
    }

    derived :
        (r : Artifact) (targets : List (String × String))
        → (is_derived r.kind ≡ true → Settled fingerprint sources targets r)
        → ArtifactIsSupported fingerprint sources r ⊎ (targeted targets r ≡ true)
    derived r targets f = elim (Bool-cases (targeted targets r)) [
      | inl hit ↦ inr hit
      | inr miss ↦ inl (λ d. supported (f d) miss)
    ]
      where
        supported :
            Settled fingerprint sources targets r
            → targeted targets r ≡ false
            → IsSupported fingerprint sources r.kind (fields_of r.dependency)
        supported (inl s) away = s
        supported (inr t) away = cc
