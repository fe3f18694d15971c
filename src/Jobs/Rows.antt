-- ===== src/Jobs/Rows.antt =====
-- The table of jobs: what rewriting a row by its id does to the rows, to a predicate on them, and
-- to their history.
use parliament.Base.{
  ℕ, ◌≡◌, refl, sym, ap, String, Bool, some, [], ◌∷◌, ◌++◌, str_eq, str_eq_iff, any, All, ok,
  Bool-cases, inl, inr, arith, subst, ◌∙◌, ◌⊎◌, false,
}
use parliament.Base.Tables.{update_where}
use parliament.Job.{Job}
use parliament.Job.Succession.{Succeeds, Succeeds-refl, Succeeds-trans, IsWellFormed}
use parliament.Jobs.{Jobs, read_job, write_job}

abbrev pub rewrite : String → Job → Jobs → Jobs
rewrite id j table = update_where (λ k. str_eq k.id id) (λ _. j) table

pub write_job-rewrite :
    (json_bytes : Job → ℕ) (id : String) (j : Job) (table : Jobs) {table' : Jobs}
    → write_job json_bytes id j table ≡ ok table'
    → table' ≡ rewrite id j table
unfolding write_job
write_job-rewrite json_bytes id j table h = ground arith

-- Every row of the old table stands in the new one, at its place, in a later revision.
abbrev pub Evolves : Jobs → Jobs → Type 0
Evolves [] new = Unit
Evolves (j ∷ js) [] = ⊥
Evolves (j ∷ js) (k ∷ ks) = Succeeds j k × Evolves js ks

pub Evolves-refl : (table : Jobs) → Evolves table table
Evolves-refl [] = tt
Evolves-refl (j ∷ js) = (Succeeds-refl j, Evolves-refl js)

pub Evolves-trans : (a b c : Jobs) → Evolves a b → Evolves b c → Evolves a c
Evolves-trans [] b c p q = tt
Evolves-trans (j ∷ js) [] c p q = absurd p
Evolves-trans (j ∷ js) (k ∷ ks) [] p q = absurd q
Evolves-trans (j ∷ js) (k ∷ ks) (l ∷ ls) p q =
    (Succeeds-trans p.0 q.0, Evolves-trans js ks ls p.1 q.1)

pub Evolves-append : (a b : Jobs) → Evolves a (a ++ b)
Evolves-append [] b = tt
Evolves-append (j ∷ js) b = (Succeeds-refl j, Evolves-append js b)

-- The ids of the rows are unique, as the primary key demands.
abbrev pub has_id : String → Jobs → Bool
has_id id table = any (λ j. str_eq j.id id) table

abbrev pub Unique : Jobs → Type 0
Unique [] = Unit
Unique (j ∷ js) = (has_id j.id js ≡ false) × Unique js

-- The row that `read_job` finds.
pub read_job-cons :
    (id : String) (k j : Job) (ks : Jobs)
    → read_job id (k ∷ ks) ≡ some j
    → ((k.id ≡ id) × (k ≡ j)) ⊎ ((str_eq k.id id ≡ false) × (read_job id ks ≡ some j))
unfolding read_job
read_job-cons id k j ks h = elim (Bool-cases (str_eq k.id id)) [
  | inl same ↦ inl ((str_eq_iff k.id id).0 same, ground arith)
  | inr other ↦ inr (other, ground arith)
]

pub read_job-id : (id : String) (table : Jobs) (j : Job) → read_job id table ≡ some j → j.id ≡ id
read_job-id id [] j h = absurd (unfold read_job in cc)
read_job-id id (k ∷ ks) j h = elim (read_job-cons id k j ks h) [
  | inl (e, same) ↦ subst (λ (x : Job). x.id ≡ id) same e
  | inr (_, later) ↦ read_job-id id ks j later
]

pub All-read_job :
    (P : Job → Type 0) (id : String) (table : Jobs) (j : Job)
    → All P table
    → read_job id table ≡ some j
    → P j
All-read_job P id [] j a h = absurd (unfold read_job in cc)
All-read_job P id (k ∷ ks) j a h = elim (read_job-cons id k j ks h) [
  | inl (_, same) ↦ subst P same a.0
  | inr (_, later) ↦ All-read_job P id ks j a.1 later
]

pub All-rewrite :
    (P : Job → Type 0) (id : String) (j : Job) (table : Jobs)
    → P j
    → All P table
    → All P (rewrite id j table)
All-rewrite P id j [] p a = tt
All-rewrite P id j (k ∷ ks) p a = elim (Bool-cases (str_eq k.id id)) [
  | inl same ↦ rw same (p, All-rewrite P id j ks p a.1)
  | inr other ↦ rw other (a.0, All-rewrite P id j ks p a.1)
]

has_id-rewrite :
    (x id : String) (j : Job) (table : Jobs)
    → j.id ≡ id
    → has_id x (rewrite id j table) ≡ has_id x table
has_id-rewrite x id j [] e = refl
has_id-rewrite x id j (k ∷ ks) e = elim (Bool-cases (str_eq k.id id)) [
  | inl same ↦ let ke = (str_eq_iff k.id id).0 same in rw (same, has_id-rewrite x id j ks e, e, ke)
  | inr other ↦ rw (other, has_id-rewrite x id j ks e)
]

pub Unique-rewrite :
    (id : String) (j : Job) (table : Jobs) → j.id ≡ id → Unique table → Unique (rewrite id j table)
Unique-rewrite id j [] e u = tt
Unique-rewrite id j (k ∷ ks) e u = elim (Bool-cases (str_eq k.id id)) [
  | inl same ↦
      let ke = (str_eq_iff k.id id).0 same in
      rw same (rw (has_id-rewrite j.id id j ks e, e, ← ke) u.0, Unique-rewrite id j ks e u.1)
  | inr other ↦ rw other (rw (has_id-rewrite k.id id j ks e) u.0, Unique-rewrite id j ks e u.1)
]

pub rewrite-absent :
    (id : String) (j : Job) (table : Jobs) → has_id id table ≡ false → rewrite id j table ≡ table
rewrite-absent id j [] h = refl
rewrite-absent id j (k ∷ ks) h = elim (Bool-cases (str_eq k.id id)) [
  | inl same ↦ cc
  | inr other ↦ rw other (ap (◌∷◌ k) (rewrite-absent id j ks (rw other at h)))
]

Evolves-rewrite :
    (id : String) (j j' : Job) (table : Jobs)
    → Unique table
    → read_job id table ≡ some j
    → Succeeds j j'
    → Evolves table (rewrite id j' table)
Evolves-rewrite id j j' [] u h s = tt
Evolves-rewrite id j j' (k ∷ ks) u h s = elim (read_job-cons id k j ks h) [
  | inl (e, same) ↦
      rw ((str_eq_iff k.id id).1 e, rewrite-absent id j' ks (rw e at u.0))
        (subst (λ x. Succeeds x j') (sym same) s, Evolves-refl ks)
  | inr (other, later) ↦ rw other (Succeeds-refl k, Evolves-rewrite id j j' ks u.1 later s)
]

-- From a table with unique ids: every row lives on, the ids stay unique, and well-formed rows stay so.
pub record Advances (old new : Jobs) : Type 0 where
  pub evolves : Unique old → Evolves old new
  pub unique : Unique old → Unique new
  pub well_formed : All IsWellFormed old → All IsWellFormed new

pub Advances-refl : (t : Jobs) → Advances t t
Advances-refl t = record { evolves = λ _. Evolves-refl t; unique = λ u. u; well_formed = λ w. w }

pub Advances-trans : {a b c : Jobs} → Advances a b → Advances b c → Advances a c
Advances-trans {a} {b} {c} p q = record {
  evolves = λ u. Evolves-trans a b c (p.evolves u) (q.evolves (p.unique u));
  unique = λ u. q.unique (p.unique u);
  well_formed = λ w. q.well_formed (p.well_formed w);
}

-- Writing a successor of the row that stands under its id advances the table.
pub write_job-Advances :
    (json_bytes : Job → ℕ) (id : String) (j j' : Job) (table table' : Jobs)
    → read_job id table ≡ some j
    → Succeeds j j'
    → (IsWellFormed j → IsWellFormed j')
    → write_job json_bytes id j' table ≡ ok table'
    → Advances table table'
write_job-Advances json_bytes id j j' table table' found s w h =
    let e = s.id ∙ read_job-id id table j found in
    subst (Advances table) (sym (write_job-rewrite json_bytes id j' table h)) (record {
      evolves = λ u. Evolves-rewrite id j j' table u found s;
      unique = λ u. Unique-rewrite id j' table e u;
      well_formed = λ a.
          All-rewrite IsWellFormed id j' table (w (All-read_job IsWellFormed id table j a found)) a;
    })
