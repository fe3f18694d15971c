-- ===== src/Artifacts/Unicity.antt =====
-- store.py, the table `artifacts`: no operation breaks the constraint on kind, key and version.
use parliament.Base.{
  if◌then◌else◌, Bool-cases, ok-injective, str_eq_comm, find, ok, require, >>-eq-ok, String, ◌≡◌,
  refl, ◌∙◌, subst, inl, inr, Bool, true, false, Option, none, some, [], ◌∷◌, ◌++◌,
}
use parliament.Base.Tables.{update_where}
use parliament.Value.{Value, validate_label}
use parliament.Artifacts.{
  Artifact, Artifacts, is_logical, is_version, mark, withdraw, insert_current, prior_agrees,
  put_artifact, invalidate_artifact, selected,
}
use parliament.Artifacts.Selection.{Distinct}

find-mark :
    (kind key version : String) (p : Artifact → Bool) (b : Bool) (rows : Artifacts)
    → find (is_version kind key version) rows ≡ none
    → find (is_version kind key version) (update_where p (mark b) rows) ≡ none
find-mark kind key version p b [] h = refl
find-mark kind key version p b (r ∷ rows) h = elim (Bool-cases (is_version kind key version r)) [
  | inl here ↦ absurd (let h' = rw here at h in cc)
  | inr other ↦ rw (flag (p r) ∙ other) (find-mark kind key version p b rows (rw other at h))
]
  where
    flag :
        (t : Bool)
        → is_version kind key version (if t then mark b r else r) ≡ is_version kind key version r
    flag true = unfold is_version is_logical in refl
    flag false = refl

Distinct-mark :
    (p : Artifact → Bool) (b : Bool) (rows : Artifacts)
    → Distinct rows
    → Distinct (update_where p (mark b) rows)
Distinct-mark p b [] d = tt
Distinct-mark p b (r ∷ rows) d = (flag (p r), Distinct-mark p b rows d.1)
  where
    flag :
        (t : Bool)
        → find
            (is_version
              (if t then mark b r else r).kind
              (if t then mark b r else r).key
              (if t then mark b r else r).version)
            (update_where p (mark b) rows)
          ≡ none
    flag true = find-mark r.kind r.key r.version p b rows d.0
    flag false = find-mark r.kind r.key r.version p b rows d.0

find-append :
    (kind key version : String) (r : Artifact) (rows : Artifacts)
    → find (is_version kind key version) rows ≡ none
    → is_version kind key version r ≡ false
    → find (is_version kind key version) (rows ++ r ∷ []) ≡ none
find-append kind key version r [] h e = rw e refl
find-append kind key version r (q ∷ rows) h e = elim (Bool-cases (is_version kind key version q)) [
  | inl here ↦ absurd (let h' = rw here at h in cc)
  | inr other ↦ rw other (find-append kind key version r rows (rw other at h) e)
]

is_version_comm :
    (q r : Artifact) → is_version q.kind q.key q.version r ≡ is_version r.kind r.key r.version q
unfolding is_version is_logical
is_version_comm q r =
    rw (str_eq_comm r.kind q.kind, str_eq_comm r.key q.key, str_eq_comm r.version q.version) refl

Distinct-append :
    (r : Artifact) (rows : Artifacts)
    → Distinct rows
    → find (is_version r.kind r.key r.version) rows ≡ none
    → Distinct (rows ++ r ∷ [])
Distinct-append r [] d h = (refl, tt)
Distinct-append r (q ∷ rows) d h = elim (Bool-cases (is_version r.kind r.key r.version q)) [
  | inl here ↦ absurd (let h' = rw here at h in cc)
  | inr other ↦ (
    find-append q.kind q.key q.version r rows d.0 (is_version_comm q r ∙ other),
    Distinct-append r rows d.1 (rw other at h),
  )
]

insert_current-Distinct :
    (kind key version : String) (dependency payload : Value) (prior : Option Artifact)
    (rows : Artifacts)
    → find (is_version kind key version) rows ≡ prior
    → Distinct rows
    → Distinct (
        insert_current prior
          (selected kind key version dependency payload)
          (withdraw kind key rows))
unfolding insert_current withdraw
insert_current-Distinct kind key version dependency payload none rows f d =
    Distinct-append (selected kind key version dependency payload) (withdraw kind key rows)
      (Distinct-mark (is_logical kind key) false rows d)
      (find-mark kind key version (is_logical kind key) false rows f)
insert_current-Distinct kind key version dependency payload (some prior) rows f d =
    Distinct-mark (is_version kind key version) true (withdraw kind key rows)
      (Distinct-mark (is_logical kind key) false rows d)

-- An accepted put keeps the versions distinct, and so does an invalidation of any key.
pub put_artifact-Distinct :
    (digest : String → String → Value → Value → String) (kind key other_kind other_key : String)
    (dependency payload : Value) (rows : Artifacts) (version : String) (rows' : Artifacts)
    → Distinct rows
    → put_artifact digest kind key dependency payload rows ≡ ok (version, rows')
    → Distinct rows' × Distinct (invalidate_artifact other_kind other_key rows')
unfolding put_artifact invalidate_artifact withdraw
put_artifact-Distinct digest kind key other_kind other_key dependency payload rows version rows' d
      h =
    let (_, h1) = >>-eq-ok (validate_label kind) _ h in
    let (_, h2) = >>-eq-ok (validate_label key) _ h1 in
    let v = digest kind key dependency payload in
    let prior = find (is_version kind key v) rows in
    let (_, h3) = >>-eq-ok (require (prior_agrees prior dependency payload) _) _ h2 in
    let kept =
      subst (λ x. Distinct x.1) (ok-injective h3)
        (insert_current-Distinct kind key v dependency payload prior rows refl d) in
    (kept, Distinct-mark (is_logical other_kind other_key) false rows' kept)

pub invalidate_artifact-Distinct :
    (kind key : String) (rows : Artifacts)
    → Distinct rows
    → Distinct (invalidate_artifact kind key rows)
unfolding invalidate_artifact withdraw
invalidate_artifact-Distinct kind key rows d = Distinct-mark (is_logical kind key) false rows d
