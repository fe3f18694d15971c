-- ===== src/Artifacts.antt =====
-- worker/src/parliament_worker/graphrag/store.py: put_artifact, get_artifact, artifacts,
-- invalidate_artifact and artifact_versions on the table `artifacts` of store_schema.py, in the order
-- of its `sequence`, and store_bulk.py's stored_artifact_versions and withdrawal of artifacts.
-- `digest`, a parameter, is the SHA-256 text of kind, key, dependency and payload.
pub mod Selection
pub mod Current
pub mod History
pub mod Unicity
mod Samples
use parliament.Base.{
  ltb, leb, ◌==◌, if◌then◌else◌, ltb→lt, lt→ltb, leb→le, le→leb, Bool-cases, Option-cases,
  str_eq_refl, opt_eq, opt_eq_sound, &&-eq-true, ||-eq-false, &&-false, some-eq, ok-injective,
  str_eq_comm, length, take, select, any, find, is_nil, All, length-append, length-take-le,
  All-append, All-map, Error, Result, ok, err, ◌>>=◌, ◌>>◌, require, >>=-eq-ok, >>-eq-ok,
  require-eq-ok, ℕ, zero, suc, ◌+◌, ◌-◌, ◌*◌, ◌≤◌, ◌<◌, min, max, String, ◌≡◌, refl, sym, ap, ◌∙◌,
  subst, ◌≢◌, ◌↔◌, ◌⊎◌, inl, inr, Bool, true, false, ◌&&◌, ◌||◌, not, Option, none, some, List, [],
  ◌∷◌, ◌++◌, map, arith, str_eq, str_eq_iff, artifact_version_conflict,
}
use parliament.Base.Tables.{update_where}
use parliament.Value.{Value, validate_label, same}

pub record Artifact : Type 0 where
  pub kind : String
  pub key : String
  pub version : String
  pub dependency : Value
  pub payload : Value
  pub current : Bool

abbrev pub Artifacts : Type 0
Artifacts = List Artifact

-- WHERE kind=? AND artifact_key=?
unfoldable pub is_logical : String → String → Artifact → Bool
is_logical kind key r = str_eq r.kind kind && str_eq r.key key

-- WHERE kind=? AND artifact_key=? AND version=?
unfoldable pub is_version : String → String → String → Artifact → Bool
unfolding is_logical
is_version kind key version r = is_logical kind key r && str_eq r.version version

-- WHERE kind=? AND artifact_key=? AND current=1
unfoldable pub is_current : String → String → Artifact → Bool
unfolding is_logical
is_current kind key r = is_logical kind key r && r.current

abbrev pub mark : Bool → Artifact → Artifact
mark b r = record r { current = b }

-- UPDATE artifacts SET current=0 WHERE kind=? AND artifact_key=?
pub withdraw : String → String → Artifacts → Artifacts
withdraw kind key rows = update_where (is_logical kind key) (mark false) rows

-- INSERT … ON CONFLICT(kind,artifact_key,version) DO UPDATE SET current=1
pub insert_current : Option Artifact → Artifact → Artifacts → Artifacts
insert_current none r rows = rows ++ r ∷ []
insert_current (some prior) r rows =
    update_where (is_version r.kind r.key r.version) (mark true) rows

-- `prior and (prior["dependency"] != … or prior["payload"] != …)`, negated
pub prior_agrees : Option Artifact → Value → Value → Bool
prior_agrees none dependency payload = true
prior_agrees (some p) dependency payload = same p.dependency dependency && same p.payload payload

abbrev pub selected : String → String → String → Value → Value → Artifact
selected kind key version dependency payload = record {
  kind = kind;
  key = key;
  version = version;
  dependency = dependency;
  payload = payload;
  current = true;
}

-- GraphStore.put_artifact
unfoldable pub put_artifact :
    (String → String → Value → Value → String)
    → String
    → String
    → Value
    → Value
    → Artifacts
    → Result (String × Artifacts)
unfolding withdraw insert_current prior_agrees
put_artifact digest kind key dependency payload rows = do
  validate_label kind
  validate_label key
  let version = digest kind key dependency payload
  let prior = find (is_version kind key version) rows
  require (prior_agrees prior dependency payload) artifact_version_conflict
  ok (
    version,
    insert_current prior (selected kind key version dependency payload) (withdraw kind key rows),
  )

abbrev pub or_else : Option Artifact → Option Artifact → Option Artifact
or_else (some found) o = some found
or_else none o = o

-- ORDER BY sequence DESC LIMIT 1
unfoldable pub last_where : (Artifact → Bool) → Artifacts → Option Artifact
last_where p [] = none
last_where p (r ∷ rows) = or_else (last_where p rows) (if p r then some r else none)

-- GraphStore.get_artifact
unfoldable pub get_artifact : String → String → Artifacts → Option Artifact
unfolding last_where
get_artifact kind key rows = last_where (is_current kind key) rows

-- GraphStore.artifacts: the current ones of a kind, or their whole history
unfoldable pub artifacts : String → Bool → Artifacts → Artifacts
artifacts kind current rows =
    select (λ r. str_eq r.kind kind && (if current then r.current else true)) rows

-- GraphStore.invalidate_artifact
unfoldable pub invalidate_artifact : String → String → Artifacts → Artifacts
unfolding withdraw
invalidate_artifact kind key rows = withdraw kind key rows

-- GraphStore.artifact_versions
pub artifact_versions : String → String → Artifacts → Artifacts
unfolding is_logical
artifact_versions kind key rows = select (is_logical kind key) rows

-- store_bulk.stored_artifact_versions
pub stored_artifact_versions : Artifacts → List (String × String × String)
stored_artifact_versions rows = map (λ r. (r.kind, r.key, r.version)) rows

-- store_bulk.retire_results, its artifacts: the count of rows that were current, and the table
unfoldable pub retire_artifacts : List (String × String) → ℕ → Artifacts → ℕ × Artifacts
unfolding is_current
retire_artifacts [] retired rows = (retired, rows)
retire_artifacts ((kind, key) ∷ targets) retired rows =
    retire_artifacts targets (retired + length (select (is_current kind key) rows))
      (update_where (is_current kind key) (mark false) rows)
