-- ===== src/Index/Snapshot.antt =====
-- index.py, select_snapshot_artifacts: the artifacts of a captured state whose sources, model and
-- children are current, down to the tenth level.
pub mod Standing
pub mod Resting
mod Samples
use parliament.Base.{
  ltb, leb, ◌==◌, if◌then◌else◌, ltb→lt, lt→ltb, leb→le, le→leb, Bool-cases, Option-cases,
  str_eq_refl, opt_eq, opt_eq_sound, &&-eq-true, ||-eq-false, &&-false, some-eq, ok-injective,
  str_eq_comm, length, take, select, any, find, is_nil, All, length-append, length-take-le,
  All-append, All-map, Error, Result, ok, err, ◌>>=◌, ◌>>◌, require, >>=-eq-ok, >>-eq-ok,
  require-eq-ok, ℕ, zero, suc, ◌+◌, ◌-◌, ◌*◌, ◌≤◌, ◌<◌, min, max, String, ◌≡◌, refl, sym, ap, ◌∙◌,
  subst, ◌≢◌, ◌↔◌, ◌⊎◌, inl, inr, Bool, true, false, ◌&&◌, ◌||◌, not, Option, none, some, List, [],
  ◌∷◌, ◌++◌, map, arith, str_eq, str_eq_iff, unhashable_key,
}
use parliament.Value.{Value, Fields, Items, obj, str, get, equals, cons, nil}
use parliament.Value.Objects.{
  fields_of, is_true, is_text, at_key, hashable, object_or, iterated, and_then, all_items,
  and_then-eq-true,
}
use parliament.Sources.{Source}
use parliament.Artifacts.{Artifact, Artifacts}
use parliament.Index.{dependencies_current, routing_current, snapshot_at, prompt_version}

-- what is captured: the sources, the active model, and the candidates of both families
pub record Snapshot : Type 0 where
  pub sources : List Source
  pub model : Option Artifact
  pub graphs : Artifacts
  pub communities : Artifacts

-- the dict of both families by kind and key
abbrev pub candidates : Snapshot → Artifacts
candidates s = s.graphs ++ s.communities

-- `dependency.get("prompt_version", PROMPT_VERSION)`
abbrev pub prompt_of : Option Value → Value
prompt_of none = str prompt_version
prompt_of (some v) = v

-- `dependency["model_signature"] != … or … != active_model["payload"]["prompt_version"]`, negated
pub payload_matches : Value → Value → Fields → Result Bool
unfolding equals get
payload_matches signature prompt payload = do
  s ← at_key (get "model_signature" payload)
  and_then (ok (equals signature s))
      (at_key (get "prompt_version" payload) >>= λ p. ok (equals prompt p))

-- the test on the active model, negated
pub model_current : Option Artifact → Option Value → Option Value → Result Bool
unfolding payload_matches
model_current none signature prompt = ok true
model_current (some a) none prompt = ok true
model_current (some a) (some v) prompt =
    if is_true (some v)
    then (object_or a.payload >>= payload_matches v (prompt_of prompt))
    else ok true

pub child_found : (Fields → String → Result Bool) → Option Artifact → Option Value → Result Bool
unfolding equals
child_found valid none version = ok false
child_found valid (some a) version = do
  v ← at_key version
  and_then (ok (equals (str a.version) v)) (valid (fields_of a.dependency) a.kind)

-- the body of the loop over the children
pub child_valid : (Fields → String → Result Bool) → Artifacts → Value → Result Bool
unfolding child_found hashable get
child_valid valid snapshots child = do
  fs ← object_or child
  kind ← at_key (get "kind" fs)
  key ← at_key (get "key" fs)
  require (hashable (some kind) && hashable (some key)) unhashable_key
  child_found valid (snapshot_at kind key snapshots) (get "version" fs)

module _ (fingerprint : Value → String) (s : Snapshot) where
  -- `valid`, with the levels that are left: it is false below the tenth
  pub valid : ℕ → Fields → String → Result Bool
  unfolding dependencies_current routing_current model_current child_valid all_items get
  valid zero dependency kind = ok false
  valid (suc left) dependency kind =
      and_then (dependencies_current fingerprint dependency s.sources) (
        and_then (routing_current kind dependency) (
          and_then
            (model_current s.model (get "model_signature" dependency)
              (get "prompt_version" dependency))
            (iterated (get "children" dependency)
              >>= all_items (child_valid (valid left) (candidates s)))))

  pub select_valid : Artifacts → Result Artifacts
  unfolding valid
  select_valid [] = ok []
  select_valid (a ∷ rows) = do
    keep ← valid 10 (fields_of a.dependency) a.kind
    rest ← select_valid rows
    ok (if keep then a ∷ rest else rest)

  -- select_snapshot_artifacts, for `graph` or else `community`
  pub select_snapshot_artifacts : Bool → Result Artifacts
  unfolding select_valid
  select_snapshot_artifacts graph = select_valid (if graph then s.graphs else s.communities)
