-- ===== src/Artifacts/Selection.antt =====
-- store.py, put_artifact: the version that a put selects, and the rows that it leaves alone.
use parliament.Base.{
  if◌then◌else◌, Bool-cases, str_eq_refl, &&-eq-true, some-eq, ok-injective, find, ok, require,
  >>-eq-ok, require-eq-ok, String, ◌≡◌, refl, ap, ◌∙◌, subst, inl, inr, Bool, true, false, Option,
  none, some, [], ◌∷◌, ◌++◌, arith, str_eq, str_eq_iff,
}
use parliament.Base.Tables.{update_where}
use parliament.Value.{Value, same, eq_of_same, validate_label}
use parliament.Artifacts.{
  Artifact, Artifacts, is_logical, is_version, is_current, mark, withdraw, insert_current,
  prior_agrees, put_artifact, last_where, get_artifact, selected,
}

-- No two rows share kind, key and version, as the UNIQUE constraint demands.
abbrev pub Distinct : Artifacts → Type 0
Distinct [] = Unit
Distinct (r ∷ rows) = (find (is_version r.kind r.key r.version) rows ≡ none) × Distinct rows

-- the two updates of a put that finds its version
abbrev pub reselect : String → String → String → Artifacts → Artifacts
reselect kind key version rows =
    update_where (is_version kind key version) (mark true) (withdraw kind key rows)

is_version-eq :
    (kind key version : String) (r : Artifact)
    → is_version kind key version r ≡ true
    → (r.kind ≡ kind) × (r.key ≡ key) × (r.version ≡ version)
unfolding is_version
is_version-eq kind key version r h =
    let (l, v) = &&-eq-true (is_logical kind key r) _ h in
    let (k, e) = &&-eq-true (str_eq r.kind kind) _ l in
    ((str_eq_iff r.kind kind).0 k, (str_eq_iff r.key key).0 e, (str_eq_iff r.version version).0 v)

is_version-logical :
    (kind key version : String) (r : Artifact)
    → is_version kind key version r ≡ true
    → is_logical kind key r ≡ true
unfolding is_version
is_version-logical kind key version r h = (&&-eq-true (is_logical kind key r) _ h).0

-- one row under the two updates
reselect_row : (kind key version : String) (r : Artifact) → Artifact
reselect_row kind key version r =
    if is_version kind key version r
    then mark true r
    else (if is_logical kind key r then mark false r else r)

reselect-cons :
    (kind key version : String) (r : Artifact) (rows : Artifacts)
    → reselect kind key version (r ∷ rows)
      ≡ reselect_row kind key version r ∷ reselect kind key version rows
unfolding reselect_row withdraw is_version
reselect-cons kind key version r rows = ground arith

is_current-reselect_row :
    (kind key version : String) (r : Artifact)
    → is_version kind key version r ≡ true
    → is_current kind key (reselect_row kind key version r) ≡ true
unfolding reselect_row is_current is_version is_logical
is_current-reselect_row kind key version r h = ground arith

other_row :
    (kind key version : String) (r : Artifact)
    → is_version kind key version r ≡ false
    → is_current kind key (reselect_row kind key version r) ≡ false
unfolding reselect_row is_current is_logical
other_row kind key version r h = ground arith

last_where-none :
    (p : Artifact → Bool) (r : Artifact) (rows : Artifacts)
    → last_where p rows ≡ none
    → last_where p (r ∷ rows) ≡ (if p r then some r else none)
unfolding last_where
last_where-none p r rows e = rw e refl

last_where-some :
    (p : Artifact → Bool) (r found : Artifact) (rows : Artifacts)
    → last_where p rows ≡ some found
    → last_where p (r ∷ rows) ≡ some found
unfolding last_where
last_where-some p r found rows e = rw e refl

find-cons-none :
    (p : Artifact → Bool) (r : Artifact) (rows : Artifacts)
    → find p (r ∷ rows) ≡ none
    → (p r ≡ false) × (find p rows ≡ none)
find-cons-none p r rows h = elim (Bool-cases (p r)) [
  | inl here ↦ absurd (let h' = rw here at h in cc)
  | inr other ↦ (other, rw other at h)
]

reselect-none :
    (kind key version : String) (rows : Artifacts)
    → find (is_version kind key version) rows ≡ none
    → last_where (is_current kind key) (reselect kind key version rows) ≡ none
reselect-none kind key version [] h = unfold withdraw last_where in refl
reselect-none kind key version (r ∷ rows) h =
    let (other, later) = find-cons-none (is_version kind key version) r rows h in
    rw (reselect-cons kind key version r rows) (
      last_where-none _ _ _ (reselect-none kind key version rows later)
      ∙ ap (λ b. if b then some (reselect_row kind key version r) else none)
          (other_row kind key version r other))

-- After the two updates of a put the stored row of the version is the current one.
pub reselect-some :
    (kind key version : String) (prior : Artifact) (rows : Artifacts)
    → Distinct rows
    → find (is_version kind key version) rows ≡ some prior
    → last_where (is_current kind key) (reselect kind key version rows) ≡ some (mark true prior)
reselect-some kind key version prior [] d h = absurd (let h' = h in cc)
reselect-some kind key version prior (r ∷ rows) d h =
    elim (Bool-cases (is_version kind key version r)) [
      | inl here ↦
          let e : r ≡ prior = some-eq (rw here at h) in
          let (k, y, v) = is_version-eq kind key version r here in
          let none_later : find (is_version kind key version) rows ≡ none = rw (k, y, v) at d.0 in
          rw (reselect-cons kind key version r rows) (
            last_where-none _ _ _ (reselect-none kind key version rows none_later)
            ∙ ap (λ b. if b then some (reselect_row kind key version r) else none)
                (is_current-reselect_row kind key version r here)
            ∙ ap some (marked kind key version r here ∙ ap (mark true) e))
      | inr other ↦
          rw (reselect-cons kind key version r rows) (
            last_where-some _ _ _ _ (reselect-some kind key version prior rows d.1 (rw other at h)))
    ]
  where
    marked :
        (kind key version : String) (r : Artifact)
        → is_version kind key version r ≡ true
        → reselect_row kind key version r ≡ mark true r
    marked kind key version r h = unfold reselect_row in rw h refl

last_where-snoc :
    (p : Artifact → Bool) (r : Artifact) (rows : Artifacts)
    → p r ≡ true
    → last_where p (rows ++ r ∷ []) ≡ some r
unfolding last_where
last_where-snoc p r [] h = rw h refl
last_where-snoc p r (q ∷ rows) h = rw (last_where-snoc p r rows h) refl

selected-current :
    (kind key version : String) (d p : Value)
    → is_current kind key (selected kind key version d p) ≡ true
unfolding is_current is_logical
selected-current kind key version d p = rw (str_eq_refl kind, str_eq_refl key) refl

find-some :
    (p : Artifact → Bool) (rows : Artifacts) {found : Artifact}
    → find p rows ≡ some found
    → p found ≡ true
find-some p [] h = absurd (let h' = h in cc)
find-some p (r ∷ rows) {found} h = elim (Bool-cases (p r)) [
  | inl here ↦ subst (λ x. p x ≡ true) (some-eq (rw here at h)) here
  | inr other ↦ find-some p rows (rw other at h)
]

marked-selected :
    (kind key version : String) (dependency payload : Value) (prior : Artifact)
    → prior.kind ≡ kind
    → prior.key ≡ key
    → prior.version ≡ version
    → prior.dependency ≡ dependency
    → prior.payload ≡ payload
    → mark true prior ≡ selected kind key version dependency payload
marked-selected kind key version dependency payload prior a b c d e = cc

current_after :
    (kind key version : String) (dependency payload : Value) (rows : Artifacts)
    (prior : Option Artifact)
    → Distinct rows
    → find (is_version kind key version) rows ≡ prior
    → prior_agrees prior dependency payload ≡ true
    → last_where (is_current kind key) (
        insert_current prior
          (selected kind key version dependency payload)
          (withdraw kind key rows))
      ≡ some (selected kind key version dependency payload)
unfolding insert_current prior_agrees
current_after kind key version dependency payload rows none d found agrees =
    last_where-snoc _ _ (withdraw kind key rows)
      (selected-current kind key version dependency payload)
current_after kind key version dependency payload rows (some prior) d found agrees =
    let (a, b, c) = is_version-eq kind key version prior (find-some _ rows found) in
    let (x, y) = &&-eq-true (same prior.dependency dependency) _ agrees in
    let e =
      marked-selected kind key version dependency payload prior a b c
        (eq_of_same prior.dependency dependency x) (eq_of_same prior.payload payload y) in
    reselect-some kind key version prior rows d found ∙ ap some e

-- What was put is what is read: its version, dependency and payload, whether it was stored before
-- or not.
pub get-put_artifact :
    (digest : String → String → Value → Value → String) (kind key : String)
    (dependency payload : Value) (rows : Artifacts) (version : String) (rows' : Artifacts)
    → Distinct rows
    → put_artifact digest kind key dependency payload rows ≡ ok (version, rows')
    → get_artifact kind key rows' ≡ some (selected kind key version dependency payload)
unfolding put_artifact get_artifact
get-put_artifact digest kind key dependency payload rows version rows' d h =
    let (_, h1) = >>-eq-ok (validate_label kind) _ h in
    let (_, h2) = >>-eq-ok (validate_label key) _ h1 in
    let v = digest kind key dependency payload in
    let prior = find (is_version kind key v) rows in
    let (g, h3) = >>-eq-ok (require (prior_agrees prior dependency payload) _) _ h2 in
    let e = ok-injective h3 in
    let read =
      current_after kind key v dependency payload rows prior d refl (require-eq-ok _ _ g) in
    subst
      (λ x. last_where (is_current kind key) x.1 ≡ some (selected kind key x.0 dependency payload))
      e read
