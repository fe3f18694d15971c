-- ===== src/Artifacts/Current.antt =====
-- store.py, put_artifact and invalidate_artifact: which artifact is current, for the key that is
-- written and for the other keys, and the uniqueness of the versions.
use parliament.Base.{
  if◌then◌else◌, Bool-cases, str_eq_refl, &&-eq-true, ok-injective, find, ok, require, >>-eq-ok,
  String, ◌≡◌, refl, ◌∙◌, subst, inl, inr, Bool, true, false, Option, none, some, [], ◌∷◌, ◌++◌,
  arith, str_eq_iff,
}
use parliament.Base.Tables.{update_where}
use parliament.Value.{Value, validate_label}
use parliament.Artifacts.{
  Artifact, Artifacts, is_logical, is_version, is_current, mark, withdraw, insert_current,
  prior_agrees, put_artifact, last_where, get_artifact, invalidate_artifact, selected,
}

-- An update that never touches, and never makes, a row that the test selects.
last_where-update :
    (q p : Artifact → Bool) (f : Artifact → Artifact) (rows : Artifacts)
    → ((r : Artifact) → p r ≡ true → (q r ≡ false) × (q (f r) ≡ false))
    → last_where q (update_where p f rows) ≡ last_where q rows
unfolding last_where
last_where-update q p f [] h = refl
last_where-update q p f (r ∷ rows) h =
    rw (last_where-update q p f rows h) (elim (Bool-cases (p r)) [
      | inl hit ↦ rw (hit, (h r hit).0, (h r hit).1) refl
      | inr miss ↦ rw miss refl
    ])

last_where-append :
    (q : Artifact → Bool) (r : Artifact) (rows : Artifacts)
    → q r ≡ false
    → last_where q (rows ++ r ∷ []) ≡ last_where q rows
unfolding last_where
last_where-append q r [] h = rw h refl
last_where-append q r (x ∷ rows) h = rw (last_where-append q r rows h) refl

apart :
    (kind key kind' key' : String) (r : Artifact)
    → ((kind ≡ kind') × (key ≡ key') → ⊥)
    → is_logical kind key r ≡ true
    → is_logical kind' key' r ≡ false
unfolding is_logical
apart kind key kind' key' r h e = ground (
  arith,
  str_eq_iff r.kind kind,
  str_eq_iff r.key key,
  str_eq_iff r.kind kind',
  str_eq_iff r.key key',
)

not_current :
    (kind key : String) (r : Artifact)
    → is_logical kind key r ≡ false
    → is_current kind key r ≡ false
unfolding is_current
not_current kind key r h = rw h refl

mark-not_current :
    (b : Bool) (kind key : String) (r : Artifact)
    → is_logical kind key r ≡ false
    → is_current kind key (mark b r) ≡ false
unfolding is_current is_logical
mark-not_current b kind key r h = rw h refl

withdraw-other :
    (kind key kind' key' : String) (rows : Artifacts)
    → ((kind ≡ kind') × (key ≡ key') → ⊥)
    → last_where (is_current kind' key') (withdraw kind key rows)
      ≡ last_where (is_current kind' key') rows
unfolding withdraw
withdraw-other kind key kind' key' rows h =
    last_where-update (is_current kind' key') (is_logical kind key) (mark false) rows (λ r e.
      let l = apart kind key kind' key' r h e in
      (not_current kind' key' r l, mark-not_current false kind' key' r l))

selected-logical :
    (kind key version : String) (d p : Value)
    → is_logical kind key (selected kind key version d p) ≡ true
unfolding is_logical
selected-logical kind key version d p = rw (str_eq_refl kind, str_eq_refl key) refl

insert_current-other :
    (kind key version kind' key' : String) (d p : Value) (prior : Option Artifact)
    (rows : Artifacts)
    → ((kind ≡ kind') × (key ≡ key') → ⊥)
    → last_where (is_current kind' key') (insert_current prior (selected kind key version d p) rows)
      ≡ last_where (is_current kind' key') rows
unfolding insert_current is_version
insert_current-other kind key version kind' key' d p none rows h =
    last_where-append (is_current kind' key') (selected kind key version d p) rows (
      not_current kind' key' _ (
        apart kind key kind' key' (selected kind key version d p) h
          (selected-logical kind key version d p)))
insert_current-other kind key version kind' key' d p (some r) rows h =
    last_where-update (is_current kind' key') (is_version kind key version) (mark true) rows (λ r e.
      let l = apart kind key kind' key' r h (&&-eq-true (is_logical kind key r) _ e).0 in
      (not_current kind' key' r l, mark-not_current true kind' key' r l))

-- A put that is accepted for one kind and key changes what no other kind and key reads.
pub get-put_other :
    (digest : String → String → Value → Value → String) (kind key kind' key' : String)
    (dependency payload : Value) (rows : Artifacts) (version : String) (rows' : Artifacts)
    → ((kind ≡ kind') × (key ≡ key') → ⊥)
    → put_artifact digest kind key dependency payload rows ≡ ok (version, rows')
    → get_artifact kind' key' rows' ≡ get_artifact kind' key' rows
unfolding put_artifact get_artifact
get-put_other digest kind key kind' key' dependency payload rows version rows' n h =
    let (_, h1) = >>-eq-ok (validate_label kind) _ h in
    let (_, h2) = >>-eq-ok (validate_label key) _ h1 in
    let v = digest kind key dependency payload in
    let prior = find (is_version kind key v) rows in
    let (_, h3) = >>-eq-ok (require (prior_agrees prior dependency payload) _) _ h2 in
    let e = ok-injective h3 in
    subst (λ x. last_where (is_current kind' key') x.1 ≡ last_where (is_current kind' key') rows) e
      (insert_current-other kind key v kind' key' dependency payload prior (withdraw kind key rows)
          n
        ∙ withdraw-other kind key kind' key' rows n)

withdrawn :
    (kind key : String) (rows : Artifacts)
    → last_where (is_current kind key) (withdraw kind key rows) ≡ none
unfolding last_where withdraw is_current is_logical
withdrawn kind key [] = refl
withdrawn kind key (r ∷ rows) = rw (withdrawn kind key rows) (row kind key r)
  where
    row :
        (kind key : String) (r : Artifact)
        → (if is_current kind key (if is_logical kind key r then mark false r else r)
            then some (if is_logical kind key r then mark false r else r)
            else none)
          ≡ none
    row kind key r = ground arith

-- After invalidate_artifact the key reads nothing, and any other key reads what it read before.
pub get-invalidate_artifact :
    (kind key kind' key' : String) (rows : Artifacts)
    → ((kind ≡ kind') × (key ≡ key') → ⊥)
    → (get_artifact kind key (invalidate_artifact kind key rows) ≡ none)
      × (get_artifact kind' key' (invalidate_artifact kind key rows) ≡ get_artifact kind' key' rows)
unfolding get_artifact invalidate_artifact
get-invalidate_artifact kind key kind' key' rows n =
    (withdrawn kind key rows, withdraw-other kind key kind' key' rows n)
