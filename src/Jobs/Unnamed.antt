-- ===== src/Jobs/Unnamed.antt =====
-- store.py, GraphStore.update_leased: the rows that a batch of changes leaves alone.
use parliament.Base.{
  All, ok, ℕ, String, ◌≡◌, refl, sym, ap, ◌∙◌, Bool, true, false, List, [], ◌∷◌, ◌++◌, str_eq,
}
use parliament.Job.{Job, Changes}
use parliament.Job.Succession.{updated_job-Succeeds}
use parliament.Jobs.{Jobs, read_job, update_leased_loop, release_job}
use parliament.Jobs.Rows.{write_job-rewrite, read_job-id}
use parliament.Jobs.Lookups.{read_job-rewrite_ne}
use parliament.Jobs.Leases.{update_leased_loop-cons, update_leased_loop-nil}

-- no change goes to the id
abbrev pub Unnamed : String → List (String × Changes × Bool) → Type 0
Unnamed id = All (λ c. str_eq id c.0 ≡ false)

pub released_id : (b : Bool) (y : Job) → (release_job b y).id ≡ y.id
released_id true y = refl
released_id false y = refl

module _ (json_bytes : Job → ℕ) (owner : String) (t : ℕ) where
  pub update_leased_loop-keeps :
      (id : String) (changes : List (String × Changes × Bool)) (done table out table' : Jobs)
      → Unnamed id changes
      → update_leased_loop json_bytes owner t changes done table ≡ ok (out, table')
      → read_job id table' ≡ read_job id table
  update_leased_loop-keeps id [] done table out table' u h =
      ap (read_job id) (sym (update_leased_loop-nil json_bytes owner t done table out table' h))
  update_leased_loop-keeps id ((i, c, release) ∷ rest) done table out table' u h =
      let (ch, more) =
        update_leased_loop-cons json_bytes owner t i c release rest done table out table' h in
      let x = release_job release ch.new in
      let e =
        released_id release ch.new
        ∙ (updated_job-Succeeds ch.old c t ch.new ch.updated).id
        ∙ read_job-id i table ch.old ch.found in
      let w = write_job-rewrite json_bytes i x table ch.written in
      update_leased_loop-keeps id rest (done ++ x ∷ []) ch.after out table' u.1 more
      ∙ ap (read_job id) w
      ∙ read_job-rewrite_ne id i x table e u.0
