-- ===== src/Artifacts/History.antt =====
-- store.py, the table `artifacts`: no operation loses or rewrites a stored version.
use parliament.Base.{
  if◌then◌else◌, ok-injective, find, ok, require, >>-eq-ok, String, ◌≡◌, refl, sym, ap, ◌∙◌, subst,
  Bool, true, false, Option, none, some, List, [], ◌∷◌, ◌++◌, map,
}
use parliament.Base.Tables.{update_where}
use parliament.Value.{Value, validate_label}
use parliament.Artifacts.{
  Artifact, Artifacts, is_logical, is_version, mark, withdraw, insert_current, prior_agrees,
  put_artifact, selected,
}

-- what an artifact holds, apart from whether it is current
abbrev pub content : Artifact → String × String × String × Value × Value
content r = (r.kind, r.key, r.version, r.dependency, r.payload)

-- An update of the flag keeps the contents.
content-update :
    (p : Artifact → Bool) (b : Bool) (rows : Artifacts)
    → map content (update_where p (mark b) rows) ≡ map content rows
content-update p b [] = refl
content-update p b (r ∷ rows) = rw (content-update p b rows, row (p r) b r) refl
  where
    row : (t b : Bool) (r : Artifact) → content (if t then mark b r else r) ≡ content r
    row true b r = refl
    row false b r = refl

map-snoc :
    (r : Artifact) (rows : Artifacts)
    → map content (rows ++ r ∷ []) ≡ map content rows ++ content r ∷ []
map-snoc r [] = refl
map-snoc r (x ∷ rows) = ap (◌∷◌ (content x)) (map-snoc r rows)

-- the contents a put appends: those of a version not stored yet
abbrev pub appended : Option Artifact → Artifact → List (String × String × String × Value × Value)
appended none r = content r ∷ []
appended (some prior) r = []

content-insert :
    (prior : Option Artifact) (r : Artifact) (rows : Artifacts)
    → map content (insert_current prior r rows) ≡ map content rows ++ appended prior r
unfolding insert_current
content-insert none r rows = map-snoc r rows
content-insert (some prior) r rows =
    content-update _ true rows ∙ sym (append-nil (map content rows))
  where
    append-nil : {A : Type 0} (xs : List A) → xs ++ [] ≡ xs
    append-nil [] = refl
    append-nil (x ∷ xs) = ap (◌∷◌ x) (append-nil xs)

-- An accepted put keeps every stored version with its dependency and payload, in order, and appends
-- the put one exactly when that version was not stored.
pub put_artifact-keeps_history :
    (digest : String → String → Value → Value → String) (kind key : String)
    (dependency payload : Value) (rows : Artifacts) (version : String) (rows' : Artifacts)
    → put_artifact digest kind key dependency payload rows ≡ ok (version, rows')
    → map content rows'
      ≡ map content rows
        ++ appended
            (find (is_version kind key version) rows)
            (selected kind key version dependency payload)
unfolding put_artifact withdraw
put_artifact-keeps_history digest kind key dependency payload rows version rows' h =
    let (_, h1) = >>-eq-ok (validate_label kind) _ h in
    let (_, h2) = >>-eq-ok (validate_label key) _ h1 in
    let v = digest kind key dependency payload in
    let prior = find (is_version kind key v) rows in
    let (_, h3) = >>-eq-ok (require (prior_agrees prior dependency payload) _) _ h2 in
    let e = ok-injective h3 in
    subst
      (λ x.
        map content x.1
        ≡ map content rows
          ++ appended (find (is_version kind key x.0) rows)
              (selected kind key x.0 dependency payload))
      e
      (content-insert prior (selected kind key v dependency payload) (withdraw kind key rows)
        ∙ ap (λ l. l ++ appended prior (selected kind key v dependency payload))
            (content-update (is_logical kind key) false rows))
