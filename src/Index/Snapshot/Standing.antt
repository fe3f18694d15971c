-- ===== src/Index/Snapshot/Standing.antt =====
-- index.py, select_snapshot_artifacts: what an artifact that `valid` accepts shares with the captured
-- state.
use parliament.Base.{
  some-eq, ok-injective, Result, ok, ◌>>=◌, require, >>=-eq-ok, >>-eq-ok, ℕ, suc, String, ◌≡◌, refl,
  sym, ◌∙◌, subst, Bool, true, ◌&&◌, Option, none, some, ap,
}
use parliament.Value.{Value, Fields, Items, obj, str, get, equals, cons}
use parliament.Value.Objects.{fields_of, at_key, hashable, iterated, all_items, and_then-eq-true}
use parliament.Artifacts.{Artifact}
use parliament.Index.{dependencies_current, routing_current, snapshot_at, is_true, object_or}
use parliament.Index.Snapshot.{
  Snapshot, candidates, model_current, child_found, child_valid, valid, payload_matches, prompt_of,
}

module _ (fingerprint : Value → String) (s : Snapshot) where
  -- the artifact of the snapshot that a child names
  abbrev child_at : Option Value → Option Value → Option Artifact
  child_at (some kind) (some key) = snapshot_at kind key (candidates s)
  child_at _ _ = none

  abbrev pub named_child : Value → Option Artifact
  unfolding child_at
  named_child (obj fs) = child_at (get "kind" fs) (get "key" fs)
  named_child _ = none

  -- an item of a list of values
  pub data ItemIn (v : Value) : Items → Type 0 where
    head : {vs : Items} → ItemIn v (cons v vs)
    later : {w : Value} {vs : Items} → ItemIn v vs → ItemIn v (cons w vs)

  -- what a signed artifact shares with a model: the signature, and the version of the prompt, which is
  -- the one of the moment where the artifact names none
  pub record FromModel (m : Artifact) (signature : Value) (prompt : Option Value) : Type 0 where
    pub payload : Fields
    pub object : m.payload ≡ obj payload
    pub signed : Value
    pub signed_at : get "model_signature" payload ≡ some signed
    pub same_signature : equals signature signed ≡ true
    pub prompted : Value
    pub prompted_at : get "prompt_version" payload ≡ some prompted
    pub same_prompt : equals (prompt_of prompt) prompted ≡ true

  -- the artifact that a child names is in the snapshot, in the version of the child
  pub record ChildFound (v : Value) : Type 0 where
    pub artifact : Artifact
    pub named : named_child v ≡ some artifact
    pub version : Value
    pub version_at : get "version" (fields_of v) ≡ some version
    pub same_version : equals (str artifact.version) version ≡ true

  -- Its sources and routing are current; where the snapshot has a model and the artifact is signed, it
  -- is from that model; and all its children are found in their versions.
  pub record IsValid (a : Artifact) : Type 0 where
    pub depends : dependencies_current fingerprint (fields_of a.dependency) s.sources ≡ ok true
    pub routed : routing_current a.kind (fields_of a.dependency) ≡ ok true
    pub modelled :
        (m : Artifact) (signature : Value)
        → s.model ≡ some m
        → get "model_signature" (fields_of a.dependency) ≡ some signature
        → is_true (some signature) ≡ true
        → FromModel m signature (get "prompt_version" (fields_of a.dependency))
    pub found :
        (v : Value) (children : Items)
        → iterated (get "children" (fields_of a.dependency)) ≡ ok children
        → ItemIn v children
        → ChildFound v

  pub all_items-ItemIn :
      (p : Value → Result Bool) (v : Value) {vs : Items}
      → ItemIn v vs
      → all_items p vs ≡ ok true
      → p v ≡ ok true
  unfolding all_items
  all_items-ItemIn p v head h = (and_then-eq-true _ _ h).0
  all_items-ItemIn p v (later i) h = all_items-ItemIn p v i (and_then-eq-true _ _ h).1

  child_found-valid :
      (rule : Fields → String → Result Bool) (o : Option Artifact) (version : Option Value)
      → child_found rule o version ≡ ok true
      → (b : Artifact) × (o ≡ some b) × (rule (fields_of b.dependency) b.kind ≡ ok true)
  unfolding child_found
  child_found-valid rule none version h = absurd (let x = ok-injective h in cc)
  child_found-valid rule (some b) version h =
      let (v, _, h1) = >>=-eq-ok (at_key version) _ h in
      (
        b,
        refl,
        (and_then-eq-true (ok (equals (str b.version) v)) (rule (fields_of b.dependency) b.kind)
            h1).1,
      )

  named-same :
      (i j : Option Value) {kind key : Value} {b c : Artifact}
      → at_key i ≡ ok kind
      → at_key j ≡ ok key
      → snapshot_at kind key (candidates s) ≡ some c
      → child_at i j ≡ some b
      → c ≡ b
  unfolding child_at
  named-same (some v) (some w) {kind = kind} {c = c} k y e n = some-eq (
      sym (
        subst (λ x. snapshot_at x w (candidates s) ≡ some c) (sym (ok-injective k))
          (subst (λ x. snapshot_at kind x (candidates s) ≡ some c) (sym (ok-injective y)) e))
      ∙ n)
  named-same none _ k y e n = cc
  named-same (some v) none k y e n = cc

  pub child_valid-named :
      (rule : Fields → String → Result Bool) (v : Value) (b : Artifact)
      → child_valid rule (candidates s) v ≡ ok true
      → named_child v ≡ some b
      → rule (fields_of b.dependency) b.kind ≡ ok true
  unfolding child_valid named_child
  child_valid-named rule (obj fs) b h n =
      let (kind, k, h1) = >>=-eq-ok (at_key (get "kind" fs)) _ h in
      let (key, y, h2) = >>=-eq-ok (at_key (get "key" fs)) _ h1 in
      let (_, h3) = >>-eq-ok (require (hashable (some kind) && hashable (some key)) _) _ h2 in
      let (c, e, r) = child_found-valid rule (snapshot_at kind key (candidates s)) _ h3 in
      subst (λ (x : Artifact). rule (fields_of x.dependency) x.kind ≡ ok true)
        (named-same (get "kind" fs) (get "key" fs) k y e n) r
  child_valid-named rule _ b h n = cc

  at_key-some : (o : Option Value) {v : Value} → at_key o ≡ ok v → o ≡ some v
  at_key-some none h = absurd (let x = h in cc)
  at_key-some (some v) h = ap some (ok-injective h)

  model_current-FromModel :
      (m : Artifact) (signature : Value) (prompt : Option Value)
      → is_true (some signature) ≡ true
      → model_current (some m) (some signature) prompt ≡ ok true
      → FromModel m signature prompt
  unfolding model_current payload_matches
  model_current-FromModel m signature prompt t h = matched m.payload refl (rw t at h)
    where
      matched :
          (x : Value)
          → m.payload ≡ x
          → (object_or x >>= payload_matches signature (prompt_of prompt)) ≡ ok true
          → FromModel m signature prompt
      matched (obj payload) e k =
          unfold payload_matches in
          let (signed, a, k1) = >>=-eq-ok (at_key (get "model_signature" payload)) _ k in
          let (b, k2) = and_then-eq-true (ok (equals signature signed)) _ k1 in
          let (prompted, c, k3) = >>=-eq-ok (at_key (get "prompt_version" payload)) _ k2 in
          record {
            payload = payload;
            object = e;
            signed = signed;
            signed_at = at_key-some _ a;
            same_signature = ok-injective b;
            prompted = prompted;
            prompted_at = at_key-some _ c;
            same_prompt = ok-injective k3;
          }
      matched _ e k = absurd (let x = k in cc)

  child_found-version :
      (rule : Fields → String → Result Bool) (o : Option Artifact) (version : Option Value)
      → child_found rule o version ≡ ok true
      → (b : Artifact) × (v : Value) × (o ≡ some b)
        × (version ≡ some v)
        × (equals (str b.version) v ≡ true)
  unfolding child_found
  child_found-version rule none version h = absurd (let x = ok-injective h in cc)
  child_found-version rule (some b) version h =
      let (v, g, h1) = >>=-eq-ok (at_key version) _ h in
      (
        b,
        v,
        refl,
        at_key-some version g,
        ok-injective
            (and_then-eq-true (ok (equals (str b.version) v)) (rule (fields_of b.dependency) b.kind)
              h1).0,
      )

  child_valid-ChildFound :
      (rule : Fields → String → Result Bool) (v : Value)
      → child_valid rule (candidates s) v ≡ ok true
      → ChildFound v
  unfolding child_valid named_child child_at
  child_valid-ChildFound rule (obj fs) h =
      let (kind, k, h1) = >>=-eq-ok (at_key (get "kind" fs)) _ h in
      let (key, y, h2) = >>=-eq-ok (at_key (get "key" fs)) _ h1 in
      let (_, h3) = >>-eq-ok (require (hashable (some kind) && hashable (some key)) _) _ h2 in
      let (b, version, e, g, q) =
        child_found-version rule (snapshot_at kind key (candidates s)) _ h3 in
      record {
        artifact = b;
        named = rw (at_key-some _ k, at_key-some _ y) e;
        version = version;
        version_at = g;
        same_version = q;
      }
  child_valid-ChildFound rule _ h = absurd (let x = h in cc)

  pub valid-IsValid :
      (left : ℕ) (a : Artifact)
      → valid fingerprint s (suc left) (fields_of a.dependency) a.kind ≡ ok true
      → IsValid a
  unfolding valid
  valid-IsValid left a h =
      let (d, h1) = and_then-eq-true _ _ h in
      let (o, h2) = and_then-eq-true _ _ h1 in
      let (m, h3) =
        and_then-eq-true
          (model_current s.model (get "model_signature" (fields_of a.dependency))
            (get "prompt_version" (fields_of a.dependency)))
          (iterated (get "children" (fields_of a.dependency))
            >>= all_items (child_valid (valid fingerprint s left) (candidates s)))
          h2 in
      record {
        depends = d;
        routed = o;
        modelled =
            λ model signature e f t. model_current-FromModel model signature _ t (rw (e, f) at m);
        found = λ v children e i. child_valid-ChildFound (valid fingerprint s left) v (
            all_items-ItemIn (child_valid (valid fingerprint s left) (candidates s)) v i
              (rw e at h3));
      }
