-- ===== src/Index.antt =====
-- worker/src/parliament_worker/graphrag/index.py: which dependencies are current, and reconcile,
-- which withdraws what is not. Parameters are `fingerprint`, the SHA-256 text of a JSON value,
-- `json_bytes`, the length of a job's canonical JSON, and `time`, what `time.time()` returns.
-- The dict of sources by scope is the list of them; a dict of artifacts by kind and key the list of
-- its values. A dependency is an object, as every caller of put_artifact writes it.
pub mod Snapshot
pub mod Families
pub mod Reconciled
mod Samples
use parliament.Base.{
  ltb, leb, ◌==◌, if◌then◌else◌, ltb→lt, lt→ltb, leb→le, le→leb, Bool-cases, Option-cases,
  str_eq_refl, opt_eq, opt_eq_sound, &&-eq-true, ||-eq-false, &&-false, some-eq, ok-injective,
  str_eq_comm, length, take, select, any, find, is_nil, All, length-append, length-take-le,
  All-append, All-map, Error, Result, ok, err, ◌>>=◌, ◌>>◌, require, >>=-eq-ok, >>-eq-ok,
  require-eq-ok, ℕ, zero, suc, ◌+◌, ◌-◌, ◌*◌, ◌≤◌, ◌<◌, min, max, String, ◌≡◌, refl, sym, ap, ◌∙◌,
  subst, ◌≢◌, ◌↔◌, ◌⊎◌, inl, inr, Bool, true, false, ◌&&◌, ◌||◌, not, Option, none, some, List, [],
  ◌∷◌, ◌++◌, map, arith, str_eq, str_eq_iff, missing_key, unhashable_key,
}
use parliament.Value.{
  Value, Fields, Items, obj, arr, str, num, field, end, cons, nil, pos, null, get, equals,
}
use parliament.Value.Objects.{
  fields_of, is_true, is_text, at_key, hashable, object_or, iterated, and_then, all_items,
  any_items,
}
use parliament.Job.{Job, obsolete, same_state, truthy}
use parliament.Jobs.{Jobs}
use parliament.Sources.{Source, source_of, order_by_scope}
use parliament.Artifacts.{Artifact, Artifacts, is_logical, artifacts, last_where}
use parliament.Retirement.{retire_results}

-- PROMPT_VERSION and GROUP_ID_VERSION of prompts.py, ROUTING_VERSION of community_routing.py
abbrev pub prompt_version : String
prompt_version = "parliament-graphrag-v3"

abbrev pub group_id_version : String
group_id_version = "report-key-scoped-v1"

abbrev pub routing_version : String
routing_version = "source-entity-overlap-fixed-hub-cap-v3"

pub source_dependency : Source → Value
source_dependency s = obj (
    field "fingerprint" (str s.fingerprint)
      (field "generation" (num (pos s.generation)) (field "scope" (str s.scope) end)))

abbrev pub items_of : List Value → Items
items_of [] = nil
items_of (v ∷ vs) = cons v (items_of vs)

pub source_manifest : (Value → String) → List Source → String
unfolding source_dependency order_by_scope
source_manifest fingerprint sources =
    fingerprint (arr (items_of (map source_dependency (order_by_scope sources))))

-- the first test of dependencies_current, negated
pub manifest_current : (Value → String) → Option Value → List Source → Bool
unfolding source_manifest
manifest_current fingerprint none sources = true
manifest_current fingerprint (some null) sources = true
manifest_current fingerprint (some (str m)) sources = str_eq (source_manifest fingerprint sources) m
manifest_current fingerprint (some _) sources = false

abbrev pub source_at : Value → List Source → Option Source
source_at (str scope) sources = source_of scope sources
source_at _ sources = none

abbrev pub is_null : Value → Bool
is_null null = true
is_null _ = false

-- `sources.get(scope, {}).get("fingerprint") == … and sources[scope]["generation"] == …`
pub source_current : Option Source → Value → Option Value → Result Bool
unfolding equals
source_current none fingerprint generation =
    if is_null fingerprint then err missing_key else ok false
source_current (some s) fingerprint generation =
    if equals (str s.fingerprint) fingerprint
    then (at_key generation >>= λ g. ok (equals (num (pos s.generation)) g))
    else ok false

pub item_current : List Source → Value → Result Bool
unfolding source_current hashable get
item_current sources item = do
  fs ← object_or item
  scope ← at_key (get "scope" fs)
  require (hashable (some scope)) unhashable_key
  fingerprint ← at_key (get "fingerprint" fs)
  source_current (source_at scope sources) fingerprint (get "generation" fs)

-- dependencies_current
unfoldable pub dependencies_current : (Value → String) → Fields → List Source → Result Bool
unfolding manifest_current item_current all_items get
dependencies_current fingerprint dependency sources =
    if not (manifest_current fingerprint (get "source_manifest" dependency) sources)
    then ok false
    else do items ← iterated (get "sources" dependency); all_items (item_current sources) items

-- `child.get("kind") == "community"`
pub is_community : Value → Result Bool
unfolding get
is_community child = do fs ← object_or child; ok (is_text "community" (get "kind" fs))

-- routing_current
pub routing_current : String → Fields → Result Bool
unfolding is_community any_items get
routing_current kind dependency =
    if not (str_eq kind "community")
    then ok true
    else if not (is_text group_id_version (get "group_id_version" dependency))
    then ok false
    else do
      children ← iterated (get "children" dependency)
      parent ← any_items is_community children
      ok (not parent || is_text routing_version (get "routing_version" dependency))

-- `snapshots.get((kind, key))`
abbrev pub snapshot_at : Value → Value → Artifacts → Option Artifact
snapshot_at (str kind) (str key) snapshots = last_where (is_logical kind key) snapshots
snapshot_at _ _ snapshots = none

-- `not current or current["version"] != … or not routing_current(…)`, negated; the artifact found has
-- the kind of the child
pub child_matches : Option Artifact → Value → Fields → Result Bool
unfolding routing_current equals get
child_matches none kind child = ok false
child_matches (some a) kind child = do
  version ← at_key (get "version" child)
  and_then (ok (equals (str a.version) version)) (routing_current a.kind (fields_of a.dependency))

pub child_current : Artifacts → Value → Result Bool
unfolding child_matches hashable last_where is_logical get
child_current snapshots child = do
  fs ← object_or child
  kind ← at_key (get "kind" fs)
  key ← at_key (get "key" fs)
  require (hashable (some kind) && hashable (some key)) unhashable_key
  child_matches (snapshot_at kind key snapshots) kind fs

-- children_current with the snapshots of a caller
pub children_current : Fields → Artifacts → Result Bool
unfolding child_current all_items get
children_current dependency snapshots = do
  children ← iterated (get "children" dependency)
  all_items (child_current snapshots) children

-- the three tests of reconcile on a dependency, negated
pub fresh : (Value → String) → String → Fields → List Source → Artifacts → Result Bool
unfolding dependencies_current routing_current children_current
fresh fingerprint kind dependency sources snapshots =
    and_then (dependencies_current fingerprint dependency sources)
      (and_then (routing_current kind dependency) (children_current dependency snapshots))

-- `snapshots.pop((kind, key), None)`
pub pop_snapshot : String → String → Artifacts → Artifacts
unfolding is_logical
pop_snapshot kind key snapshots = select (λ r. not (is_logical kind key r)) snapshots

-- the loop over the artifacts: the targets to withdraw, and the snapshots that are left
pub stale_artifacts :
    (Value → String)
    → List Source
    → Artifacts
    → Artifacts
    → Result (List (String × String) × Artifacts)
unfolding fresh pop_snapshot
stale_artifacts fingerprint sources [] snapshots = ok ([], snapshots)
stale_artifacts fingerprint sources (a ∷ rows) snapshots = do
  keep ← fresh fingerprint a.kind (fields_of a.dependency) sources snapshots
  (targets, left) ←
      stale_artifacts fingerprint sources rows
        (if keep then snapshots else pop_snapshot a.kind a.key snapshots)
  ok (if keep then targets else (a.kind, a.key) ∷ targets, left)

-- a job to withdraw: it is not obsolete, not fresh, and no one holds its lease
pub stale_job : (Value → String) → List Source → Artifacts → Job → Result Bool
unfolding fresh same_state truthy
stale_job fingerprint sources snapshots j = if same_state j.state obsolete then ok false else do
  keep ← fresh fingerprint j.kind j.context sources snapshots
  ok (not keep && not (truthy j.lease_owner))

pub stale_jobs : (Value → String) → List Source → Artifacts → Jobs → Result (List String)
unfolding stale_job
stale_jobs fingerprint sources snapshots [] = ok []
stale_jobs fingerprint sources snapshots (j ∷ js) = do
  stale ← stale_job fingerprint sources snapshots j
  ids ← stale_jobs fingerprint sources snapshots js
  ok (if stale then j.id ∷ ids else ids)

-- `store.artifacts(kind)` for the four families
pub families : Artifacts → Artifacts
unfolding artifacts
families rows =
    artifacts "graph" true rows
    ++ (artifacts "community" true rows
        ++ (artifacts "answer_map" true rows ++ artifacts "answer" true rows))

-- reconcile: the number of rows withdrawn, and both tables. The code reads the sources, each family
-- and the jobs in transactions of their own before the one of retire_results; here they are one step,
-- the run in which nothing else writes to the store from the first read to the commit.
pub reconcile :
    (Value → String)
    → (Job → ℕ)
    → ℕ
    → List Source
    → Artifacts × Jobs
    → Result (ℕ × Artifacts × Jobs)
unfolding families stale_artifacts stale_jobs
reconcile fingerprint json_bytes time sources (rows, table) = do
  let current = families rows
  (targets, snapshots) ← stale_artifacts fingerprint sources current current
  ids ← stale_jobs fingerprint sources snapshots table
  retire_results json_bytes time targets ids (rows, table)
