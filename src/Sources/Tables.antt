-- ===== src/Sources/Tables.antt =====
-- The tables of sources, versions and observations: what a read finds after a write.
use parliament.Base.{
  if◌then◌else◌, Bool-cases, Option-cases, &&-eq-true, String, ◌≡◌, refl, inl, inr, Bool, false,
  Option, none, some, List, [], ◌∷◌, ◌++◌, arith, str_eq, str_eq_iff,
}
use mathlib.Core.Path.{subst₂}
use parliament.Base.Tables.{update_where}
use parliament.Sources.{
  Source, Version, source_of, version_of, is_version, replace_source, insert_version,
}

-- A replaced row is what its scope finds; the other scopes find what they did.
pub source_of-replace :
    (scope : String) (rows : List Source) (row : Source)
    → source_of scope (replace_source row rows)
      ≡ (if str_eq row.scope scope then some row else source_of scope rows)
unfolding replace_source
source_of-replace scope [] row = refl
source_of-replace scope (r ∷ rs) row = ground (
  arith,
  source_of-replace scope rs row,
  str_eq_iff r.scope row.scope,
  str_eq_iff r.scope scope,
  str_eq_iff row.scope scope,
)

abbrev pub map_option : {A B : Type 0} → (A → B) → Option A → Option B
map_option f none = none
map_option f (some a) = some (f a)

-- An update of a scope maps what that scope finds.
pub source_of-update :
    (scope key : String) (f : Source → Source) (rows : List Source)
    → ((r : Source) → (f r).scope ≡ r.scope)
    → source_of scope (update_where (λ r. str_eq r.scope key) f rows)
      ≡ (if str_eq key scope then map_option f (source_of scope rows) else source_of scope rows)
source_of-update scope key f [] keep = ground arith
source_of-update scope key f (r ∷ rs) keep = ground (
  arith,
  keep r,
  source_of-update scope key f rs keep,
  str_eq_iff r.scope key,
  str_eq_iff r.scope scope,
  str_eq_iff key scope,
)

-- the version that was there, or the new one if it is asked for
abbrev pub kept : Option Version → Bool → Version → Option Version
kept (some old) asked v = some old
kept none asked v = if asked then some v else none

version_of-append :
    (scope fingerprint : String) (v : Version) (rows : List Version)
    → version_of scope fingerprint (rows ++ v ∷ [])
      ≡ kept (version_of scope fingerprint rows) (is_version scope fingerprint v) v
version_of-append scope fingerprint v [] = refl
version_of-append scope fingerprint v (r ∷ rs) =
    elim (Bool-cases (is_version scope fingerprint r)) [
      | inl here ↦ rw here refl
      | inr later ↦ rw later (version_of-append scope fingerprint v rs)
    ]

version_of-present :
    (scope fingerprint : String) (v old : Version) (rows : List Version)
    → version_of v.scope v.fingerprint rows ≡ some old
    → version_of scope fingerprint rows
      ≡ kept (version_of scope fingerprint rows) (is_version scope fingerprint v) v
version_of-present scope fingerprint v old rows found =
    elim (Bool-cases (is_version scope fingerprint v)) [
      | inl asked ↦
          let (p, q) = &&-eq-true (str_eq v.scope scope) _ asked in
          let e = (str_eq_iff v.scope scope).0 p in
          let d = (str_eq_iff v.fingerprint fingerprint).0 q in
          let f : version_of scope fingerprint rows ≡ some old =
            subst₂ (λ x y. version_of x y rows ≡ some old) e d found in
          rw f refl
      | inr other ↦ rw other (kept_none (version_of scope fingerprint rows) v)
    ]
  where
    kept_none : (o : Option Version) (v : Version) → o ≡ kept o false v
    kept_none none v = refl
    kept_none (some r) v = refl

-- An inserted version is found unless one was there; no other version is touched.
pub version_of-insert :
    (scope fingerprint : String) (v : Version) (rows : List Version)
    → version_of scope fingerprint (insert_version (version_of v.scope v.fingerprint rows) v rows)
      ≡ kept (version_of scope fingerprint rows) (is_version scope fingerprint v) v
unfolding insert_version
version_of-insert scope fingerprint v rows =
    elim (Option-cases (version_of v.scope v.fingerprint rows)) [
      | inl fresh ↦ rw fresh (version_of-append scope fingerprint v rows)
      | inr (old, found) ↦ rw found (version_of-present scope fingerprint v old rows found)
    ]
