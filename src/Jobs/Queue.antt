-- ===== src/Jobs/Queue.antt =====
-- store.py, GraphStore._enqueue and update_job; store_bulk.py, the retirement of jobs.
use parliament.Base.{
  leb, Bool-cases, Option-cases, &&-eq-true, ok, err, require, >>-eq-ok, require-eq-ok, ℕ, String,
  ◌≡◌, refl, sym, ap, inl, inr, Bool, true, false, ◌&&◌, not, none, some, [], ◌∷◌, ◌++◌, str_eq,
  str_eq_iff, ok-injective, job_replay_conflict,
}
use parliament.Value.{
  Value, Fields, same, same_fields, same_refl, same_fields_refl, has_credentials,
  has_credentials_fields, validate_label, eq_of_same,
}
use parliament.Job.{Job}
use parliament.Jobs.{Jobs, read_job, new_job, enqueue_row, enqueue, max_job_bytes}

-- what the five checks of an enqueue let through
pub record Enqueued (json_bytes : Job → ℕ) (j : Job) (request : Value) (context : Fields)
    (kind key : String) (table : Jobs) (id : String) (table' : Jobs) : Type 0 where
  pub kind_ok : validate_label kind ≡ ok tt
  pub key_ok : validate_label key ≡ ok tt
  pub request_ok : has_credentials request ≡ false
  pub context_ok : has_credentials_fields context ≡ false
  pub inserted : enqueue_row json_bytes (read_job j.id table) j table ≡ ok (id, table')

not-eq-true : (b : Bool) → not b ≡ true → b ≡ false
not-eq-true false h = refl
not-eq-true true h = cc

pub enqueue-Enqueued :
    (json_bytes : Job → ℕ) (digest : String → String → String) (time : ℕ) (kind key : String)
    (request : Value) (context : Fields) (table : Jobs) (id : String) (table' : Jobs)
    → enqueue json_bytes digest time kind key request context table ≡ ok (id, table')
    → Enqueued json_bytes
        (new_job (digest kind key) kind key request context time)
        request
        context
        kind
        key
        table
        id
        table'
unfolding enqueue
enqueue-Enqueued json_bytes digest time kind key request context table id table' h =
    let (g1, h1) = >>-eq-ok (validate_label kind) _ h in
    let (g2, h2) = >>-eq-ok (validate_label key) _ h1 in
    let (g3, h3) = >>-eq-ok (require (not (has_credentials request)) _) _ h2 in
    let (g4, h4) = >>-eq-ok (require (not (has_credentials_fields context)) _) _ h3 in
    record {
      kind_ok = g1;
      key_ok = g2;
      request_ok = not-eq-true _ (require-eq-ok _ _ g3);
      context_ok = not-eq-true _ (require-eq-ok _ _ g4);
      inserted = h4;
    }

read_job-append :
    (id : String) (j : Job) (table : Jobs)
    → read_job id table ≡ none
    → j.id ≡ id
    → read_job id (table ++ j ∷ []) ≡ some j
unfolding read_job
read_job-append id j [] h e = rw ((str_eq_iff j.id id).1 e) refl
read_job-append id j (k ∷ ks) h e = elim (Bool-cases (str_eq k.id id)) [
  | inl same' ↦ absurd (let h' = rw same' at h in cc)
  | inr other ↦ rw other (read_job-append id j ks (rw other at h) e)
]

-- After the insertion the row of the id holds the request and the context.
enqueue_row-stored :
    (json_bytes : Job → ℕ) (j : Job) (table : Jobs) (id : String) (table' : Jobs)
    → enqueue_row json_bytes (read_job j.id table) j table ≡ ok (id, table')
    → (id ≡ j.id)
      × ((stored : Job) × (read_job j.id table' ≡ some stored)
          × ((same stored.request j.request && same_fields stored.context j.context) ≡ true))
unfolding enqueue_row
enqueue_row-stored json_bytes j table id table' h = elim (Option-cases (read_job j.id table)) [
  | inl fresh ↦
      let (_, e) = >>-eq-ok (require (leb (json_bytes j) max_job_bytes) _) _ (rw fresh at h) in
      let p = ok-injective e in
      (
        sym (ap (λ (x : String × Jobs). x.0) p),
        (
          j,
          rw (← ap (λ (x : String × Jobs). x.1) p) (read_job-append j.id j table fresh refl),
          rw (same_refl j.request, same_fields_refl j.context) refl,
        ),
      )
  | inr (prior, found) ↦
      let (g, e) =
        >>-eq-ok (require (same prior.request j.request && same_fields prior.context j.context) _) _
          (rw found at h) in
      let p = ok-injective e in
      (
        sym (ap (λ (x : String × Jobs). x.0) p),
        (prior, rw (← ap (λ (x : String × Jobs). x.1) p) found, require-eq-ok _ _ g),
      )
]

-- Enqueuing the same work again, at any time, answers the same id and changes nothing.
pub enqueue_idem :
    (json_bytes : Job → ℕ) (digest : String → String → String) (time later : ℕ) (kind key : String)
    (request : Value) (context : Fields) (table : Jobs) (id : String) (table' : Jobs)
    → enqueue json_bytes digest time kind key request context table ≡ ok (id, table')
    → enqueue json_bytes digest later kind key request context table' ≡ ok (id, table')
unfolding enqueue
enqueue_idem json_bytes digest time later kind key request context table id table' h =
    let q = enqueue-Enqueued json_bytes digest time kind key request context table id table' h in
    let j = new_job (digest kind key) kind key request context time in
    let (e, (stored, found, agree)) = enqueue_row-stored json_bytes j table id table' q.inserted in
    rw (q.kind_ok, q.key_ok, q.request_ok, q.context_ok, found, agree)
      (ap (λ (x : String). ok (x, table')) (sym e))

-- Enqueuing other work under the same kind and key is refused.
pub enqueue_conflict :
    (json_bytes : Job → ℕ) (digest : String → String → String) (time later : ℕ) (kind key : String)
    (request other : Value) (context : Fields) (table : Jobs) (id : String) (table' : Jobs)
    → enqueue json_bytes digest time kind key request context table ≡ ok (id, table')
    → has_credentials other ≡ false
    → same request other ≡ false
    → enqueue json_bytes digest later kind key other context table' ≡ err job_replay_conflict
unfolding enqueue
enqueue_conflict json_bytes digest time later kind key request other context table id table' h clear
      differ =
    let q = enqueue-Enqueued json_bytes digest time kind key request context table id table' h in
    let j = new_job (digest kind key) kind key request context time in
    let (_, (stored, found, agree)) = enqueue_row-stored json_bytes j table id table' q.inserted in
    let held : stored.request ≡ request =
      eq_of_same stored.request request (&&-eq-true (same stored.request request) _ agree).0 in
    rw (q.kind_ok, q.key_ok, clear, q.context_ok, found, held, differ) refl
