-- ===== src/Retirement/Withdrawn.antt =====
-- store_bulk.py, retire_results: no target is current afterwards and no other row becomes so, and
-- the jobs under the ids are retired.
use parliament.Base.{
  Bool-cases, &&-eq-true, ok-injective, length, select, any, All, All-map, ok, >>=-eq-ok, >>-eq-ok,
  ℕ, ◌+◌, String, ◌≡◌, refl, ap, subst, ◌⊎◌, inl, inr, Bool, true, false, ◌&&◌, ◌||◌, List, [], ◌∷◌,
  arith, str_eq, str_eq_iff,
}
use parliament.Base.Tables.{update_where}
use parliament.Artifacts.{Artifact, Artifacts, retire_artifacts, is_current, is_logical, mark}
use parliament.Job.{Job}
use parliament.Jobs.{Jobs, retire_jobs}
use parliament.Jobs.Rows.{Unique}
use parliament.Jobs.Retiring.{Unlisted, Excuses, retire_jobs-Unlisted}
use parliament.Retirement.{
  retire_results, validate_targets, validate_ids, unique_ids, text_member, same_target,
  unique_targets,
}

-- the row belongs to one of the targets
unfoldable pub targeted : List (String × String) → Artifact → Bool
targeted targets r = any (same_target (r.kind, r.key)) targets

-- a property of the rows that are current
abbrev pub WhenCurrent : (Artifact → Type 0) → Artifact → Type 0
WhenCurrent P r = r.current ≡ true → P r

withdraw_one :
    (P : Artifact → Type 0) (kind key : String) (rows : Artifacts)
    → All (WhenCurrent P) rows
    → All
        (WhenCurrent (λ r. P r × (same_target (r.kind, r.key) (kind, key) ≡ false)))
        (update_where (is_current kind key) (mark false) rows)
unfolding is_current is_logical
withdraw_one P kind key [] a = tt
withdraw_one P kind key (r ∷ rows) a = elim (Bool-cases (is_current kind key r)) [
  | inl hit ↦ rw hit (λ c. absurd (let d = c in cc), withdraw_one P kind key rows a.1)
  | inr miss ↦ rw miss (λ c. (a.0 c, other c miss), withdraw_one P kind key rows a.1)
]
  where
    other :
        r.current ≡ true
        → ((str_eq r.kind kind && str_eq r.key key) && r.current) ≡ false
        → same_target (r.kind, r.key) (kind, key) ≡ false
    other c miss = ground arith

-- Rows that are current after the withdrawal were so before, and belong to no target.
pub retire_artifacts-current :
    (P : Artifact → Type 0) (targets : List (String × String)) (n : ℕ) (rows : Artifacts)
    → All (WhenCurrent P) rows
    → All
        (WhenCurrent (λ r. P r × (targeted targets r ≡ false)))
        (retire_artifacts targets n rows).1
unfolding retire_artifacts targeted
retire_artifacts-current P [] n rows a = All-map _ _ rows (λ r h c. (h c, refl)) a
retire_artifacts-current P ((kind, key) ∷ targets) n rows a =
    All-map _ _ _ (λ r h c. joined r (h c))
      (retire_artifacts-current (λ r. P r × (same_target (r.kind, r.key) (kind, key) ≡ false))
        targets (n + length (select (is_current kind key) rows))
        (update_where (is_current kind key) (mark false) rows) (withdraw_one P kind key rows a))
  where
    joined :
        (r : Artifact)
        → (P r × (same_target (r.kind, r.key) (kind, key) ≡ false)) × (targeted targets r ≡ false)
        → P r × (targeted ((kind, key) ∷ targets) r ≡ false)
    joined r h = (h.0.0, rw h.0.1 h.1)

same_target-same :
    (x t u : String × String)
    → same_target x t ≡ true
    → same_target t u ≡ true
    → same_target x u ≡ true
same_target-same (a, b) (c, d) (e, f) h k =
    let (p, q) = &&-eq-true (str_eq a c) (str_eq b d) h in
    rw ((str_eq_iff a c).0 p, (str_eq_iff b d).0 q) k

any_same :
    (x t : String × String) (seen : List (String × String))
    → same_target x t ≡ true
    → any (same_target t) seen ≡ true
    → any (same_target x) seen ≡ true
any_same x t [] h k = cc
any_same x t (u ∷ seen) h k = elim (Bool-cases (same_target t u)) [
  | inl hit ↦ rw (same_target-same x t u h hit) refl
  | inr miss ↦ or_right (same_target x u) _ (any_same x t seen h (rw miss at k))
]
  where
    or_right : (a b : Bool) → b ≡ true → (a || b) ≡ true
    or_right true b e = refl
    or_right false b e = e

-- Deduplication loses no target.
pub unique_targets-any :
    (x : String × String) (seen ts : List (String × String))
    → any (same_target x) ts ≡ true
    → any (same_target x) seen ≡ false
    → any (same_target x) (unique_targets seen ts) ≡ true
unfolding unique_targets
unique_targets-any x seen [] h k = h
unique_targets-any x seen (t ∷ ts) h k = elim (Bool-cases (same_target x t)) [
  | inl own ↦ elim (Bool-cases (any (same_target t) seen)) [
    | inl known ↦ absurd (let e = any_same x t seen own known in cc)
    | inr new ↦ rw (new, own) refl
  ]
  | inr other ↦ elim (Bool-cases (any (same_target t) seen)) [
    | inl known ↦ rw known (unique_targets-any x seen ts (rw other at h) k)
    | inr new ↦ rw (new, other) (unique_targets-any x (t ∷ seen) ts (rw other at h) (rw other k))
  ]
]

-- The two parts of a retirement that commits.
retire_results-parts :
    (json_bytes : Job → ℕ) (time : ℕ) (artifacts : List (String × String)) (jobs : List String)
    (rows : Artifacts) (table : Jobs) (n : ℕ) (rows' : Artifacts) (table' : Jobs)
    → retire_results json_bytes time artifacts jobs (rows, table) ≡ ok (n, rows', table')
    → ((retire_artifacts (unique_targets [] artifacts) 0 rows).1 ≡ rows')
      × ((w : ℕ) × (retire_jobs json_bytes time (unique_ids [] jobs) w table ≡ ok (n, table')))
unfolding retire_results
retire_results-parts json_bytes time artifacts jobs rows table n rows' table' h =
    let targets = unique_targets [] artifacts in
    let ids = unique_ids [] jobs in
    let (_, h1) = >>-eq-ok (validate_targets targets) _ h in
    let (_, h2) = >>-eq-ok (validate_ids ids) _ h1 in
    let w = (retire_artifacts targets 0 rows).0 in
    let ((k, t), g, h3) = >>=-eq-ok (retire_jobs json_bytes time ids w table) _ h2 in
    let e = ok-injective h3 in
    (
      ap (λ (x : ℕ × Artifacts × Jobs). x.1) e,
      (
        w,
        subst
            (λ (x : ℕ × Artifacts × Jobs). retire_jobs json_bytes time ids w table ≡ ok (x.0, x.2))
            e g,
      ),
    )

listed_once :
    (id : String) (seen ids : List String)
    → any (str_eq id) ids ≡ true
    → any (str_eq id) seen ≡ false
    → any (str_eq id) (unique_ids seen ids) ≡ true
unfolding unique_ids
listed_once id seen [] h k = h
listed_once id seen (i ∷ ids) h k = elim (Bool-cases (str_eq id i)) [
  | inl own ↦
      rw (subst (λ (s : String). text_member s seen ≡ false) ((str_eq_iff id i).0 own) k, own) refl
  | inr other ↦ elim (Bool-cases (text_member i seen)) [
    | inl known ↦ rw known (listed_once id seen ids (rw other at h) k)
    | inr new ↦ rw (new, other) (listed_once id (i ∷ seen) ids (rw other at h) (rw other k))
  ]
]

targeted-unique_targets :
    (r : Artifact) (targets : List (String × String))
    → targeted targets r ≡ true
    → targeted (unique_targets [] targets) r ≡ true
unfolding targeted
targeted-unique_targets r targets h = unique_targets-any (r.kind, r.key) [] targets h refl

-- After a retirement that commits, a property that each current artifact outside the targets had
-- holds of every current artifact, and one that each job outside the ids had of every job, if
-- obsolete and leased jobs have it.
pub retire_results-settles :
    (P : Artifact → Type 0) (Q : Job → Type 0) (json_bytes : Job → ℕ) (time : ℕ)
    (artifacts : List (String × String)) (jobs : List String) (rows : Artifacts) (table : Jobs)
    (n : ℕ) (rows' : Artifacts) (table' : Jobs)
    → Excuses Q time
    → Unique table
    → All (WhenCurrent (λ r. P r ⊎ (targeted artifacts r ≡ true))) rows
    → All (Unlisted Q jobs) table
    → retire_results json_bytes time artifacts jobs (rows, table) ≡ ok (n, rows', table')
    → All (WhenCurrent P) rows' × All Q table'
retire_results-settles P Q json_bytes time artifacts jobs rows table n rows' table' x u a b h =
    let (e, (w, g)) =
      retire_results-parts json_bytes time artifacts jobs rows table n rows' table' h in
    (
      subst (All (WhenCurrent P)) e (
          All-map _ _ _ (λ r c k. left r (c k))
            (retire_artifacts-current (λ r. P r ⊎ (targeted artifacts r ≡ true))
              (unique_targets [] artifacts) 0 rows a)),
      retire_jobs-Unlisted Q json_bytes time (unique_ids [] jobs) w table n table' x u g
          (All-map _ _ table once b),
    )
  where
    left :
        (r : Artifact)
        → (P r ⊎ (targeted artifacts r ≡ true)) × (targeted (unique_targets [] artifacts) r ≡ false)
        → P r
    left r (inl p, away) = p
    left r (inr t, away) = absurd (let y = targeted-unique_targets r artifacts t in cc)

    once : (j : Job) → Unlisted Q jobs j → Unlisted Q (unique_ids [] jobs) j
    once j (inl q) = inl q
    once j (inr l) = inr (listed_once j.id [] jobs l refl)
