-- ===== src/Jobs/Turns.antt =====
-- store.py, GraphStore.update_leased: one turn of its loop, on a job that stands in the table.
use parliament.Base.{
  some-eq, ok, ℕ, String, ◌≡◌, sym, ap, ◌∙◌, subst, Bool, false, some, List, [], ◌∷◌, ◌++◌,
}
use parliament.Job.{Job, Changes, updated_job}
use parliament.Job.Succession.{updated_job-Succeeds}
use parliament.Jobs.{Jobs, read_job, update_leased_loop, release_job}
use parliament.Jobs.Rows.{rewrite, write_job-rewrite, has_id}
use parliament.Jobs.Lookups.{Stands, Stands-rewrite, read_job-rewrite_self}
use parliament.Jobs.Leases.{update_leased_loop-cons}
use parliament.Jobs.Unnamed.{released_id}

-- The job is updated and written, and the jobs to come still stand.
pub record Turn (json_bytes : Job → ℕ) (owner : String) (t : ℕ) (j : Job) (c : Changes)
    (release : Bool) (js : Jobs) (rest : List (String × Changes × Bool)) (table out table' : Jobs)
    : Type 0 where
  pub done : Jobs
  pub after : Jobs
  pub new : Job
  pub updated : updated_job j c t ≡ ok new
  pub same_id : (release_job release new).id ≡ j.id
  pub written : after ≡ rewrite j.id (release_job release new) table
  pub row : read_job j.id after ≡ some (release_job release new)
  pub stands : Stands after js
  pub goes_on : update_leased_loop json_bytes owner t rest done after ≡ ok (out, table')

pub update_leased_loop-Turn :
    (json_bytes : Job → ℕ) (owner : String) (t : ℕ) (j : Job) (js : Jobs) (c : Changes)
    (release : Bool) (rest : List (String × Changes × Bool)) (done table out table' : Jobs)
    → Stands table (j ∷ js)
    → has_id j.id js ≡ false
    → update_leased_loop json_bytes owner t ((j.id, c, release) ∷ rest) done table
      ≡ ok (out, table')
    → Turn json_bytes owner t j c release js rest table out table'
update_leased_loop-Turn json_bytes owner t j js c release rest done table out table' s a h =
    let (ch, more) =
      update_leased_loop-cons json_bytes owner t j.id c release rest done table out table' h in
    let e : ch.old ≡ j = some-eq (sym ch.found ∙ s.0) in
    let g = subst (λ (x : Job). updated_job x c t ≡ ok ch.new) e ch.updated in
    let x = release_job release ch.new in
    let w = write_job-rewrite json_bytes j.id x table ch.written in
    let i = released_id release ch.new ∙ (updated_job-Succeeds j c t ch.new g).id in
    record {
      done = done ++ x ∷ [];
      after = ch.after;
      new = ch.new;
      updated = g;
      same_id = i;
      written = w;
      row = ap (read_job j.id) w ∙ read_job-rewrite_self j.id x j table i s.0;
      stands = subst (λ (y : Jobs). Stands y js) (sym w) (Stands-rewrite j.id x table js i a s.1);
      goes_on = more;
    }
