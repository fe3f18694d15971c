-- ===== src/Status/Unresolved.antt =====
-- status.py: the unresolved failures that summarize_latest counts are among the derivations that
-- failed_keys_pending_recovery counts.
use parliament.Base.{
  if◌then◌else◌, Bool-cases, &&-eq-true, &&-false, str_eq_comm, any, find, ◌+◌, ◌≤◌, String, ◌≡◌,
  refl, subst, inl, inr, Bool, true, false, ◌&&◌, ◌||◌, not, none, some, List, [], ◌∷◌, arith,
  str_eq, str_eq_iff, one_if, count_where,
}
use parliament.Job.{
  JobState, same_state, planned, submitting, polling, completed, failed, obsolete, deferred,
}
use parliament.Status.{
  StatusRow, Latest, is_target, latest_loop, is_failed, summarize_latest, same_logical, failed_loop,
  unfinished, awaits_recovery, failed_keys_pending_recovery,
}
use parliament.Status.Tracking.{Distinct, Covered, member, latest_loop-Distinct, loops-Covered}

-- the failed entries with a key of the list
failed_in : List (String × String) → Latest → Bool
unfolding member
failed_in keys l = is_failed l && member l.kind l.key keys

failed_at : String → String → Latest → Bool
failed_at kind key l = is_failed l && is_target kind key l

count_where-none :
    (kind key : String) (ls : List Latest)
    → find (is_target kind key) ls ≡ none
    → count_where (failed_at kind key) ls ≡ 0
unfolding failed_at
count_where-none kind key [] h = refl
count_where-none kind key (l ∷ ls) h = elim (Bool-cases (is_target kind key l)) [
  | inl own ↦ absurd (let h' = rw own at h in cc)
  | inr other ↦
      let z = count_where-none kind key ls (rw other at h) in
      rw (other, &&-false (is_failed l)) (omega (arith, z))
]

state_unfinished :
    (s : JobState)
    → (if same_state s failed then 1 else 0)
      ≤ (if not (same_state s completed) && not (same_state s obsolete) then 1 else 0)
unfolding same_state
state_unfinished planned = omega arith
state_unfinished submitting = omega arith
state_unfinished polling = omega arith
state_unfinished completed = omega arith
state_unfinished failed = omega arith
state_unfinished obsolete = omega arith
state_unfinished deferred = omega arith

failed-unfinished :
    (l : Latest) → (if is_failed l then 1 else 0) ≤ (if unfinished (some l) then 1 else 0)
unfolding unfinished
failed-unfinished l = state_unfinished l.state

-- the failed entries of one key: at most the one that is found, which then awaits recovery
one_key :
    (kind key : String) (ls : List Latest)
    → Distinct ls
    → count_where (failed_at kind key) ls ≤ (if awaits_recovery ls (kind, key) then 1 else 0)
unfolding failed_at awaits_recovery Distinct
one_key kind key [] d = omega arith
one_key kind key (l ∷ ls) d = elim (Bool-cases (is_target kind key l)) [
  | inl own ↦
      let (x, y) = &&-eq-true (str_eq l.kind kind) _ own in
      let none_later = rw ((str_eq_iff l.kind kind).0 x, (str_eq_iff l.key key).0 y) at d.0 in
      let z = count_where-none kind key ls none_later in rw own (head (is_failed l) refl z)
  | inr other ↦
      let z = one_key kind key ls d.1 in rw (other, &&-false (is_failed l)) (omega (arith, z))
]
  where
    head :
        (b : Bool)
        → is_failed l ≡ b
        → count_where (failed_at kind key) ls ≡ 0
        → (if b && true then 1 else 0) + count_where (failed_at kind key) ls
          ≤ (if unfinished (some l) then 1 else 0)
    head b e z =
        let f =
          subst (λ t. (if t then 1 else 0) ≤ (if unfinished (some l) then 1 else 0)) e
            (failed-unfinished l) in
        rest b f
      where
        rest :
            (b : Bool)
            → (if b then 1 else 0) ≤ (if unfinished (some l) then 1 else 0)
            → (if b && true then 1 else 0) + count_where (failed_at kind key) ls
              ≤ (if unfinished (some l) then 1 else 0)
        rest true f = omega (arith, f, z)
        rest false f = omega (arith, f, z)

no_keys : (ls : List Latest) → count_where (failed_in []) ls ≡ 0
unfolding failed_in member
no_keys [] = refl
no_keys (l ∷ ls) = let z = no_keys ls in rw (&&-false (is_failed l)) (omega (arith, z))

split_key :
    (kind key : String) (keys : List (String × String)) (ls : List Latest)
    → count_where (failed_in ((kind, key) ∷ keys)) ls
      ≤ count_where (failed_at kind key) ls + count_where (failed_in keys) ls
unfolding failed_in failed_at member
split_key kind key keys [] = omega arith
split_key kind key keys (l ∷ ls) =
    let ih = split_key kind key keys ls in
    let r =
      row (is_failed l) (str_eq kind l.kind && str_eq key l.key) (is_target kind key l)
        (any (same_logical l.kind l.key) keys) turned in
    omega (arith, ih, r)
  where
    turned : (str_eq kind l.kind && str_eq key l.key) ≡ is_target kind key l
    turned = rw (str_eq_comm kind l.kind, str_eq_comm key l.key) refl

    row :
        (f a b m : Bool)
        → a ≡ b
        → (if f && (a || m) then 1 else 0) ≤ (if f && b then 1 else 0) + (if f && m then 1 else 0)
    row f a b m e =
        subst
          (λ t.
            (if f && (a || m) then 1 else 0)
            ≤ (if f && t then 1 else 0) + (if f && m then 1 else 0))
          e (bound f a m)
      where
        bound :
            (f a m : Bool)
            → (if f && (a || m) then 1 else 0)
              ≤ (if f && a then 1 else 0) + (if f && m then 1 else 0)
        bound false a m = omega arith
        bound true true m = omega arith
        bound true false m = omega arith

keys_bound :
    (keys : List (String × String)) (ls : List Latest)
    → Distinct ls
    → count_where (failed_in keys) ls ≤ count_where (awaits_recovery ls) keys
keys_bound [] ls d = let z = no_keys ls in omega (arith, z)
keys_bound ((kind, key) ∷ keys) ls d =
    let a = split_key kind key keys ls in
    let b = one_key kind key ls d in let c = keys_bound keys ls d in omega (arith, a, b, c)

failures_known :
    (keys : List (String × String)) (ls : List Latest)
    → Covered keys ls
    → count_where is_failed ls ≡ count_where (failed_in keys) ls
unfolding failed_in Covered
failures_known keys [] h = refl
failures_known keys (l ∷ ls) h =
    let ih = failures_known keys ls h.1 in let r = row (is_failed l) refl in omega (arith, ih, r)
  where
    row : (b : Bool) → is_failed l ≡ b → one_if b ≡ one_if (b && member l.kind l.key keys)
    row true e = rw (h.0 e) refl
    row false e = refl

-- Every history has at least as many derivations that await recovery as unresolved failures: a
-- derivation whose newest attempt failed is always one that failed and has not succeeded since.
pub unresolved-le-pending :
    (rows : List StatusRow) → (summarize_latest rows).1 ≤ failed_keys_pending_recovery rows
unfolding summarize_latest failed_keys_pending_recovery
unresolved-le-pending rows =
    let ls = latest_loop rows [] in
    let keys = failed_loop rows [] in
    let a = failures_known keys ls (loops-Covered rows [] [] no_entries) in
    let b = keys_bound keys ls (latest_loop-Distinct rows [] no_duplicates) in omega (arith, a, b)
  where
    no_entries : Covered [] []
    no_entries = unfold Covered in tt

    no_duplicates : Distinct []
    no_duplicates = unfold Distinct in tt
