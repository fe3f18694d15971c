-- ===== src/Retirement.antt =====
-- worker/src/parliament_worker/graphrag/store_bulk.py, retire_results: stale artifacts and jobs
-- withdrawn in one transaction on both tables. `json_bytes` is the length of a job's canonical JSON,
-- `time` what `time.time()` returns.
pub mod Withdrawn
mod Samples
use parliament.Base.{
  ltb, leb, ◌==◌, if◌then◌else◌, ltb→lt, lt→ltb, leb→le, le→leb, Bool-cases, Option-cases,
  str_eq_refl, opt_eq, opt_eq_sound, &&-eq-true, ||-eq-false, &&-false, some-eq, ok-injective,
  str_eq_comm, length, take, select, any, find, is_nil, All, length-append, length-take-le,
  All-append, All-map, Error, Result, ok, err, ◌>>=◌, ◌>>◌, require, >>=-eq-ok, >>-eq-ok,
  require-eq-ok, ℕ, zero, suc, ◌+◌, ◌-◌, ◌*◌, ◌≤◌, ◌<◌, min, max, String, ◌≡◌, refl, sym, ap, ◌∙◌,
  subst, ◌≢◌, ◌↔◌, ◌⊎◌, inl, inr, Bool, true, false, ◌&&◌, ◌||◌, not, Option, none, some, List, [],
  ◌∷◌, ◌++◌, map, arith, str_eq, str_eq_iff,
}
use parliament.Base.Tables.{update_where}
use parliament.Value.{validate_label}
use parliament.Job.{Job}
use parliament.Jobs.{Jobs, retire_jobs}
use parliament.Jobs.History.{Reach, here, next, retired}
use parliament.Artifacts.{Artifact, Artifacts, retire_artifacts, is_current, mark}
use parliament.Artifacts.History.{content}

abbrev pub text_member : String → List String → Bool
text_member id ids = any (str_eq id) ids

-- `list(dict.fromkeys(jobs))`: the first of each, in order; `seen` holds those met
unfoldable pub unique_ids : List String → List String → List String
unique_ids seen [] = []
unique_ids seen (id ∷ ids) =
    if text_member id seen then unique_ids seen ids else id ∷ unique_ids (id ∷ seen) ids

abbrev pub same_target : String × String → String × String → Bool
same_target (a, b) (c, d) = str_eq a c && str_eq b d

-- `list(dict.fromkeys(artifacts))`
pub unique_targets : List (String × String) → List (String × String) → List (String × String)
unique_targets seen [] = []
unique_targets seen (t ∷ ts) =
    if any (same_target t) seen then unique_targets seen ts else t ∷ unique_targets (t ∷ seen) ts

pub validate_targets : List (String × String) → Result (Unit {0})
validate_targets [] = ok tt
validate_targets ((kind, key) ∷ targets) =
    validate_label kind >> (validate_label key >> validate_targets targets)

pub validate_ids : List String → Result (Unit {0})
validate_ids [] = ok tt
validate_ids (id ∷ ids) = validate_label id >> validate_ids ids

-- store_bulk.retire_results: the count, and both tables; with nothing to do they stay as they are
unfoldable pub retire_results :
    (Job → ℕ)
    → ℕ
    → List (String × String)
    → List String
    → Artifacts × Jobs
    → Result (ℕ × Artifacts × Jobs)
unfolding unique_ids unique_targets validate_targets validate_ids
retire_results json_bytes time artifacts jobs (rows, table) = do
  let targets = unique_targets [] artifacts
  let ids = unique_ids [] jobs
  validate_targets targets
  validate_ids ids
  let (withdrawn, rows') = retire_artifacts targets 0 rows
  (n, table') ← retire_jobs json_bytes time ids withdrawn table
  ok (n, rows', table')

content-mark :
    (p : Artifact → Bool) (rows : Artifacts)
    → map content (update_where p (mark false) rows) ≡ map content rows
content-mark p [] = refl
content-mark p (r ∷ rows) = rw (content-mark p rows, row (p r)) refl
  where
    row : (b : Bool) → content (if b then mark false r else r) ≡ content r
    row true = refl
    row false = refl

retire_artifacts-content :
    (targets : List (String × String)) (n : ℕ) (rows : Artifacts)
    → map content (retire_artifacts targets n rows).1 ≡ map content rows
unfolding retire_artifacts
retire_artifacts-content [] n rows = refl
retire_artifacts-content ((kind, key) ∷ targets) n rows =
    retire_artifacts-content targets _ _ ∙ content-mark (is_current kind key) rows

-- A retirement that commits deletes no artifact version and rewrites none, and its effect on the
-- jobs is one step of their history.
pub retire_results-keeps :
    (json_bytes : Job → ℕ) (digest : String → String → String) (time : ℕ)
    (artifacts : List (String × String)) (jobs : List String) (rows : Artifacts) (table : Jobs)
    (n : ℕ) (rows' : Artifacts) (table' : Jobs)
    → retire_results json_bytes time artifacts jobs (rows, table) ≡ ok (n, rows', table')
    → (map content rows' ≡ map content rows) × Reach json_bytes digest table table'
unfolding retire_results
retire_results-keeps json_bytes digest time artifacts jobs rows table n rows' table' h =
    let targets = unique_targets [] artifacts in
    let ids = unique_ids [] jobs in
    let (_, h1) = >>-eq-ok (validate_targets targets) _ h in
    let (_, h2) = >>-eq-ok (validate_ids ids) _ h1 in
    let w = (retire_artifacts targets 0 rows).0 in
    let ((k, t), g, h3) = >>=-eq-ok (retire_jobs json_bytes time ids w table) _ h2 in
    let e = ok-injective h3 in
    (
      subst (λ x. map content x.1 ≡ map content rows) e (retire_artifacts-content targets 0 rows),
      subst (λ x. Reach json_bytes digest table x.2) e (next here (retired time ids w k g)),
    )
