-- ===== src/Index/Snapshot/Resting.antt =====
-- index.py, select_snapshot_artifacts: what the selected artifacts rest on.
use parliament.Base.{
  if◌then◌else◌, ok-injective, All, ok, ◌>>=◌, >>=-eq-ok, ℕ, zero, suc, ◌<◌, String, ◌≡◌, subst,
  Bool, true, false, some, [], ◌∷◌, arith,
}
use parliament.Value.{Value, Items, get}
use parliament.Value.Objects.{fields_of, iterated, all_items, and_then-eq-true}
use parliament.Artifacts.{Artifact, Artifacts}
use parliament.Index.Snapshot.{
  Snapshot, candidates, model_current, child_valid, valid, select_valid, select_snapshot_artifacts,
}
use parliament.Index.Snapshot.Standing.{
  named_child, IsValid, ItemIn, all_items-ItemIn, child_valid-named, valid-IsValid,
}

module _ (fingerprint : Value → String) (s : Snapshot) where
  -- One artifact rests on another through so many links of children.
  pub data Rests : ℕ → Artifact → Artifact → Type 0 where
    itself : {a : Artifact} → Rests 0 a a
    through :
        {n : ℕ} {a b c : Artifact} (v : Value) (children : Items)
        → iterated (get "children" (fields_of a.dependency)) ≡ ok children
        → ItemIn fingerprint s v children
        → named_child fingerprint s v ≡ some b
        → Rests n b c
        → Rests (suc n) a c

  valid-Rests :
      (left : ℕ) {n : ℕ} {a c : Artifact}
      → Rests n a c
      → valid fingerprint s left (fields_of a.dependency) a.kind ≡ ok true
      → (n < left) × IsValid fingerprint s c
  unfolding valid
  valid-Rests zero r h = absurd (let x = ok-injective h in cc)
  valid-Rests (suc left) (itself {a = a}) h = (omega arith, valid-IsValid fingerprint s left a h)
  valid-Rests (suc left) (through {a = a} {b = b} v children e i m r) h =
      let (d, h1) = and_then-eq-true _ _ h in
      let (o, h2) = and_then-eq-true _ _ h1 in
      let (_, h3) =
        and_then-eq-true
          (model_current s.model (get "model_signature" (fields_of a.dependency))
            (get "prompt_version" (fields_of a.dependency)))
          (iterated (get "children" (fields_of a.dependency))
            >>= all_items (child_valid (valid fingerprint s left) (candidates s)))
          h2 in
      let k =
        all_items-ItemIn fingerprint s (child_valid (valid fingerprint s left) (candidates s)) v i
          (rw e at h3) in
      let (x, y) =
        valid-Rests left r (child_valid-named fingerprint s (valid fingerprint s left) v b k m) in
      (omega (arith, x), y)

  select_valid-Rests :
      (rows out : Artifacts)
      → select_valid fingerprint s rows ≡ ok out
      → All (λ a. (n : ℕ) (c : Artifact) → Rests n a c → (n < 10) × IsValid fingerprint s c) out
  unfolding select_valid
  select_valid-Rests [] out h = subst (All _) (ok-injective h) tt
  select_valid-Rests (a ∷ rows) out h =
      let (keep, g, h1) = >>=-eq-ok (valid fingerprint s 10 (fields_of a.dependency) a.kind) _ h in
      let (rest, k, h2) = >>=-eq-ok (select_valid fingerprint s rows) _ h1 in
      subst (All (λ a. (n : ℕ) (c : Artifact) → Rests n a c → (n < 10) × IsValid fingerprint s c))
        (ok-injective h2) (kept keep rest g (select_valid-Rests rows rest k))
    where
      kept :
          (keep : Bool) (rest : Artifacts)
          → valid fingerprint s 10 (fields_of a.dependency) a.kind ≡ ok keep
          → All
              (λ a. (n : ℕ) (c : Artifact) → Rests n a c → (n < 10) × IsValid fingerprint s c)
              rest
          → All
              (λ a. (n : ℕ) (c : Artifact) → Rests n a c → (n < 10) × IsValid fingerprint s c)
              (if keep then a ∷ rest else rest)
      kept true rest g ih = ((λ n c r. valid-Rests 10 r g), ih)
      kept false rest g ih = ih

  -- Every artifact that is selected, and every one that it rests on through the children, depends on
  -- the sources of the snapshot, was routed by the contract of the moment, shares the signature and the
  -- prompt version with the snapshot's model where it is signed and there is a model, and finds each of
  -- its children in the snapshot in the child's version; and no chain of children has ten links.
  pub select_snapshot_artifacts-Rests :
      (graph : Bool) (out : Artifacts)
      → select_snapshot_artifacts fingerprint s graph ≡ ok out
      → All (λ a. (n : ℕ) (c : Artifact) → Rests n a c → (n < 10) × IsValid fingerprint s c) out
  unfolding select_snapshot_artifacts
  select_snapshot_artifacts-Rests graph out h =
      select_valid-Rests (if graph then s.graphs else s.communities) out h
