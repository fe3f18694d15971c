-- ===== src/Execution/Wave/Counting.antt =====
-- execution.py, _prepare: how many rows of the table pass a test, before and after an update under the
-- lease. The test reads nothing that the release of a lease changes.
use parliament.Base.{
  Bool-cases, ok, ℕ, ◌+◌, String, ◌≡◌, refl, sym, ap, ◌∙◌, subst, inl, inr, Bool, false, some, List,
  [], ◌∷◌, str_eq, str_eq_iff, one_if, count_where,
}
use parliament.Job.{Job, Changes, updated_job}
use parliament.Jobs.{Jobs, read_job, update_leased_loop, release_job}
use parliament.Jobs.Keyed.{put_by_id}
use parliament.Jobs.Rows.{Unique, rewrite, has_id, Unique-rewrite, rewrite-absent}
use parliament.Jobs.Lookups.{Stands}
use parliament.Jobs.Turns.{update_leased_loop-Turn}
use parliament.Jobs.Counting.{count_where-rewrite}
use parliament.Execution.Wave.{LeasedChange}

module _ (p : Job → Bool) (released : (b : Bool) (j : Job) → p (release_job b j) ≡ p j) where
  -- What one change of a batch does to the table and to the number of held slots.
  pub record Moved (json_bytes : Job → ℕ) (owner : String) (t : ℕ) (j : Job) (js : Jobs)
      (held : Bool) (rest : List LeasedChange) (table out table' : Jobs) : Type 0 where
    pub done : Jobs
    pub after : Jobs
    pub unique : Unique after
    pub stands : Stands after js
    pub counted : count_where p after + one_if (p j) ≡ count_where p table + one_if held
    pub goes_on : update_leased_loop json_bytes owner t rest done after ≡ ok (out, table')

  pub update_leased_loop-Moved :
      (json_bytes : Job → ℕ) (owner : String) (t : ℕ) (j : Job) (js : Jobs) (c : Changes)
      (release held : Bool) (rest : List LeasedChange) (done table out table' : Jobs)
      → Unique table
      → Stands table (j ∷ js)
      → has_id j.id js ≡ false
      → ((new : Job) → updated_job j c t ≡ ok new → p new ≡ held)
      → update_leased_loop json_bytes owner t ((j.id, c, release) ∷ rest) done table
        ≡ ok (out, table')
      → Moved json_bytes owner t j js held rest table out table'
  update_leased_loop-Moved json_bytes owner t j js c release held rest done table out table' u s a k
        h =
      let m =
        update_leased_loop-Turn json_bytes owner t j js c release rest done table out table' s a
          h in
      let x = release_job release m.new in
      record {
        done = m.done;
        after = m.after;
        unique = subst Unique (sym m.written) (Unique-rewrite j.id x table m.same_id u);
        stands = m.stands;
        counted =
            subst (λ (y : Jobs). count_where p y + one_if (p j) ≡ count_where p table + one_if held)
              (sym m.written)
              (count_where-rewrite p j.id j x table u s.0
                ∙ ap (λ (b : Bool). count_where p table + one_if b)
                    (released release m.new ∙ k m.new m.updated));
        goes_on = m.goes_on;
      }

-- a dict replaces the row that it has
pub put_by_id-rewrite :
    (id : String) (x j : Job) (table : Jobs)
    → x.id ≡ id
    → Unique table
    → read_job id table ≡ some j
    → put_by_id x table ≡ rewrite id x table
unfolding put_by_id read_job
put_by_id-rewrite id x j [] e u h = cc
put_by_id-rewrite id x j (k ∷ ks) e u h = elim (Bool-cases (str_eq k.id id)) [
  | inl same ↦
      let a = subst (λ (s : String). has_id s ks ≡ false) ((str_eq_iff k.id id).0 same) u.0 in
      rw (e, same, rewrite-absent id x ks a) refl
  | inr other ↦ rw (e, other, put_by_id-rewrite id x j ks e u.1 (rw other at h)) refl
]
