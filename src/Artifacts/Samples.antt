-- ===== src/Artifacts/Samples.antt =====
-- Runs of the artifact table on small inputs, and the theorems at these inputs.
use parliament.Base.{
  if◌then◌else◌, find, ok, ℕ, String, ◌≡◌, refl, Bool, true, false, some, [], ◌∷◌, ◌++◌, map,
  str_eq_iff,
}
use parliament.Value.{Value, num, pos, same, label_valid, validate_label}
use parliament.Artifacts.{
  artifact_versions, stored_artifact_versions, Artifact, Artifacts, is_logical, is_version,
  is_current, withdraw, insert_current, prior_agrees, put_artifact, last_where, get_artifact,
  invalidate_artifact, selected,
}
use parliament.Artifacts.Selection.{Distinct, get-put_artifact}
use parliament.Artifacts.Unicity.{put_artifact-Distinct}
use parliament.Artifacts.History.{content, appended, put_artifact-keeps_history}

abbrev body : ℕ → Value
body n = num (pos n)

-- a digest by the kind and the payload, which the rows below are made with
abbrev digest : String → String → Value → Value → String
digest kind key dependency payload = if same payload (body 1) then "one" else "two"

abbrev report : String → ℕ → Bool → Artifact
report version n c = record {
  kind = "report";
  key = "k";
  version = version;
  dependency = body 9;
  payload = body n;
  current = c;
}

abbrev other : Artifact
other = record {
  kind = "report";
  key = "j";
  version = "one";
  dependency = body 9;
  payload = body 1;
  current = true;
}

abbrev before : Artifacts
before = report "one" 1 false ∷ other ∷ report "two" 2 true ∷ []

abbrev after : Artifacts
after = report "one" 1 true ∷ other ∷ report "two" 2 false ∷ []

code : Unit {0}
unfolding put_artifact get_artifact invalidate_artifact last_where is_logical is_version is_current
    withdraw insert_current prior_agrees same label_valid validate_label
code = tt

-- the stored version "one" is selected again
put_run : put_artifact digest "report" "k" (body 9) (body 1) before ≡ ok ("one", after)
unfolding code
put_run = refl

before-Distinct : Distinct before
unfolding code
before-Distinct = (refl, (refl, (refl, tt)))

abbrev kind : String
kind = "report"

abbrev key : String
key = "k"

abbrev other_key : String
other_key = "j"

bools_apart : false ≡ true → ⊥
bools_apart e = cc

keys_apart : (kind ≡ kind) × (key ≡ other_key) → ⊥
keys_apart h = bools_apart ((str_eq_iff key other_key).1 h.1)

get-put_artifact_example :
    get_artifact "report" "k" after ≡ some (selected "report" "k" "one" (body 9) (body 1))
get-put_artifact_example =
    get-put_artifact digest "report" "k" (body 9) (body 1) before "one" after before-Distinct
      put_run

put_artifact-keeps_history_example :
    map content after
    ≡ map content before
      ++ appended
          (find (is_version "report" "k" "one") before)
          (selected "report" "k" "one" (body 9) (body 1))
put_artifact-keeps_history_example =
    put_artifact-keeps_history digest "report" "k" (body 9) (body 1) before "one" after put_run

put_artifact-Distinct_example : Distinct after × Distinct (invalidate_artifact "report" "j" after)
put_artifact-Distinct_example =
    put_artifact-Distinct digest "report" "k" "report" "j" (body 9) (body 1) before "one" after
      before-Distinct put_run

-- the history of a key, and the versions that are stored
versions_run : artifact_versions "report" "j" before ≡ other ∷ []
unfolding code artifact_versions
versions_run = refl

stored_run :
    stored_artifact_versions before
    ≡ ("report", "k", "one") ∷ ("report", "j", "one") ∷ ("report", "k", "two") ∷ []
unfolding stored_artifact_versions
stored_run = refl
