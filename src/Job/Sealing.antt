-- ===== src/Job/Sealing.antt =====
-- store_schema.py, updated_job: what its guards keep of a job.
use parliament.Base.{
  ℕ, ◌≤◌, ◌≡◌, refl, String, true, ◌||◌, not, Option, none, some, ◌⊎◌, inl, inr, arith, &&-eq-true,
  opt_eq_sound,
}
use parliament.Value.{Value, plain, plain_of_equals}
use parliament.Job.{
  Job, Changes, given, frozen, unchanged, remote_id_kept, attempts_valid, keeps_value, keeps_text,
  keeps_count, count_or,
}

pub keeps_text-given :
    (c : Option (Option String)) (old : Option String) → keeps_text c old ≡ true → given c old ≡ old
keeps_text-given none old h = refl
keeps_text-given (some new) old h = opt_eq_sound new old h

pub keeps_value-given :
    (c : Option Value) (old : Value) → keeps_value c old ≡ true → plain (given c old) ≡ plain old
keeps_value-given none old h = refl
keeps_value-given (some new) old h = plain_of_equals new old h

pub keeps_count-count_or :
    (c : Option Value) (old : ℕ) → keeps_count c old ≡ true → count_or c old ≡ old
keeps_count-count_or c old h = ground arith

pub counted-le : (c : Option Value) (old : ℕ) → attempts_valid c old ≡ true → old ≤ count_or c old
unfolding attempts_valid
counted-le c old h = ground arith

pub remote_id-write_once :
    (old : Option String) (c : Option (Option String))
    → remote_id_kept old c ≡ true
    → (old ≡ none) ⊎ (given c old ≡ old)
unfolding remote_id_kept
remote_id-write_once none c h = inl refl
remote_id-write_once (some r) c h = inr (keeps_text-given c (some r) h)

-- the six comparisons of a frozen job, one by one
pub record Unchanged (j : Job) (c : Changes) : Type 0 where
  pub remote : keeps_text c.remote_id j.remote_id ≡ true
  pub count : keeps_count c.attempts j.attempts ≡ true
  pub result : keeps_value c.result j.result ≡ true
  pub error : keeps_text c.error j.error ≡ true
  pub metadata : keeps_value c.metadata j.metadata ≡ true

unchanged-Unchanged : (j : Job) (c : Changes) → unchanged j c ≡ true → Unchanged j c
unfolding unchanged
unchanged-Unchanged j c h =
    let (h1, m) = &&-eq-true _ _ h in
    let (h2, e) = &&-eq-true _ _ h1 in
    let (h3, r) = &&-eq-true _ _ h2 in
    let (h4, a) = &&-eq-true _ _ h3 in
    let (t, n) = &&-eq-true _ _ h4 in
    record { remote = t; count = a; result = r; error = e; metadata = m }

pub sealed-unchanged :
    (j : Job) (c : Changes)
    → (not (frozen j.state) || unchanged j c) ≡ true
    → frozen j.state ≡ true
    → Unchanged j c
sealed-unchanged j c h f = unchanged-Unchanged j c (rw f at h)
