-- ===== src/Jobs/Leases.antt =====
-- store.py and store_leases.py: GraphStore.claim, update_leased, release, checkpoint and
-- renew_leases on the rows of the table.
use parliament.Base.{
  Bool-cases, ok, require, >>=-eq-ok, >>-eq-ok, ℕ, ◌+◌, String, ◌≡◌, ap, subst, inl, inr, Bool,
  true, false, ◌&&◌, Option, none, some, List, [], ◌∷◌, ◌++◌, ok-injective,
}
use parliament.Value.{Reading, store_clock, validate_label}
use parliament.Job.{Job, Changes, updated_job, require_lease, holds_lease}
use parliament.Job.Succession.{
  Succeeds, Succeeds-refl, Succeeds-trans, IsWellFormed, updated_job-Succeeds,
  updated_job-IsWellFormed, with_lease-Succeeds, with_lease-IsWellFormed,
}
use parliament.Jobs.{
  Jobs, read_job, write_job, release_job, extend_job, duration, update_leased, update_leased_loop,
  release, renew_loop, renew_leases, distinct, duration_valid,
}
use parliament.Jobs.Rows.{write_job-Advances, Advances, Advances-refl, Advances-trans}

pub require_lease-eq-ok :
    (o : Option Job) (owner : String) (now : ℕ) (j : Job)
    → require_lease o owner now ≡ ok j
    → (o ≡ some j) × (holds_lease owner now j ≡ true)
unfolding require_lease
require_lease-eq-ok none owner now j h = cc
require_lease-eq-ok (some k) owner now j h = elim (Bool-cases (holds_lease owner now k)) [
  | inl held ↦
      let e : k ≡ j = ok-injective (rw held at h) in
      (ap some e, subst (λ x. holds_lease owner now x ≡ true) e held)
  | inr lost ↦ absurd (let h' = rw lost at h in cc)
]

-- One change of a batch: the row was leased to the owner, and a successor is written.
pub record Changed (json_bytes : Job → ℕ) (owner : String) (instant : ℕ) (id : String) (c : Changes)
    (release : Bool) (table : Jobs) : Type 0 where
  pub old : Job
  pub new : Job
  pub after : Jobs
  pub found : read_job id table ≡ some old
  pub held : holds_lease owner instant old ≡ true
  pub updated : updated_job old c instant ≡ ok new
  pub written : write_job json_bytes id (release_job release new) table ≡ ok after

release_job-Succeeds : (release : Bool) (j : Job) → Succeeds j (release_job release j)
release_job-Succeeds true j = with_lease-Succeeds j none 0 j.updated_at
release_job-Succeeds false j = Succeeds-refl j

release_job-IsWellFormed :
    (release : Bool) (j : Job) → IsWellFormed j → IsWellFormed (release_job release j)
release_job-IsWellFormed true j w = with_lease-IsWellFormed j none 0 j.updated_at w
release_job-IsWellFormed false j w = w

module _ (json_bytes : Job → ℕ) (owner : String) (instant : ℕ) where
  pub update_leased_loop-nil :
      (done table out table' : Jobs)
      → update_leased_loop json_bytes owner instant [] done table ≡ ok (out, table')
      → table ≡ table'
  unfolding update_leased_loop
  update_leased_loop-nil done table out table' h = ap (λ (x : Jobs × Jobs). x.1) (ok-injective h)

  pub update_leased_loop-nothing :
      (table : Jobs) {table' : Jobs}
      → table ≡ table'
      → update_leased_loop json_bytes owner instant [] [] table ≡ ok ([], table')
  unfolding update_leased_loop
  update_leased_loop-nothing table e = ap (λ (x : Jobs). ok ([], x)) e

  pub update_leased_loop-cons :
      (id : String) (c : Changes) (release : Bool) (rest : List (String × Changes × Bool))
      (done table out table' : Jobs)
      → update_leased_loop json_bytes owner instant ((id, c, release) ∷ rest) done table
        ≡ ok (out, table')
      → (ch : Changed json_bytes owner instant id c release table) × (update_leased_loop json_bytes
            owner instant rest
            (done ++ release_job release ch.new ∷ [])
            ch.after
          ≡ ok (out, table'))
  unfolding update_leased_loop
  update_leased_loop-cons id c release rest done table out table' h =
      let (j, g1, h1) = >>=-eq-ok (require_lease (read_job id table) owner instant) _ h in
      let (j', g2, h2) = >>=-eq-ok (updated_job j c instant) _ h1 in
      let (t, g3, h3) = >>=-eq-ok (write_job json_bytes id (release_job release j') table) _ h2 in
      let (found, held) = require_lease-eq-ok (read_job id table) owner instant j g1 in
      (
        record {
          old = j;
          new = j';
          after = t;
          found = found;
          held = held;
          updated = g2;
          written = g3;
        },
        h3,
      )

  Changed-Advances :
      (id : String) (c : Changes) (release : Bool) (table : Jobs)
      (ch : Changed json_bytes owner instant id c release table)
      → Advances table ch.after
  Changed-Advances id c release table ch =
      write_job-Advances json_bytes id ch.old (release_job release ch.new) table ch.after ch.found
        (Succeeds-trans (updated_job-Succeeds ch.old c instant ch.new ch.updated)
          (release_job-Succeeds release ch.new))
        (λ _.
          release_job-IsWellFormed release ch.new
            (updated_job-IsWellFormed ch.old c instant ch.new ch.updated))
        ch.written

  update_leased_loop-Advances :
      (changes : List (String × Changes × Bool)) (done table out table' : Jobs)
      → update_leased_loop json_bytes owner instant changes done table ≡ ok (out, table')
      → Advances table table'
  update_leased_loop-Advances [] done table out table' h =
      unfold update_leased_loop in
      subst (Advances table) (ap (λ (x : Jobs × Jobs). x.1) (ok-injective h)) (Advances-refl table)
  update_leased_loop-Advances ((id, c, release) ∷ rest) done table out table' h =
      let (ch, more) = update_leased_loop-cons id c release rest done table out table' h in
      Advances-trans (Changed-Advances id c release table ch)
        (update_leased_loop-Advances rest _ ch.after out table' more)

  renew_loop-Advances :
      (until : ℕ) (ids : List String) (table table' : Jobs)
      → renew_loop json_bytes owner instant until ids table ≡ ok table'
      → Advances table table'
  unfolding renew_loop
  renew_loop-Advances until [] table table' h =
      subst (Advances table) (ok-injective h) (Advances-refl table)
  renew_loop-Advances until (id ∷ ids) table table' h =
      let (j, g1, h1) = >>=-eq-ok (require_lease (read_job id table) owner instant) _ h in
      let (t, g2, h2) = >>=-eq-ok (write_job json_bytes id (extend_job until j) table) _ h1 in
      let (found, _) = require_lease-eq-ok (read_job id table) owner instant j g1 in
      Advances-trans
        (write_job-Advances json_bytes id j (extend_job until j) table t found
          (with_lease-Succeeds j j.lease_owner until j.updated_at)
          (with_lease-IsWellFormed j j.lease_owner until j.updated_at) g2)
        (renew_loop-Advances until ids t table' h2)

-- A batch under leases keeps every row, in a later revision.
pub update_leased-Advances :
    (json_bytes : Job → ℕ) (time : ℕ) (owner : String) (changes : List (String × Changes × Bool))
    (now : Option Reading) (table out table' : Jobs)
    → update_leased json_bytes time owner changes now table ≡ ok (out, table')
    → Advances table table'
unfolding update_leased
update_leased-Advances json_bytes time owner changes now table out table' h =
    let (t, _, h1) = >>=-eq-ok (store_clock time now) _ h in
    update_leased_loop-Advances json_bytes owner t changes [] table out table' h1

pub renew_leases-Advances :
    (json_bytes : Job → ℕ) (time : ℕ) (owner : String) (ids : List String) (lease : Reading)
    (now : Option Reading) (table table' : Jobs)
    → renew_leases json_bytes time owner ids lease now table ≡ ok table'
    → Advances table table'
unfolding renew_leases
renew_leases-Advances json_bytes time owner ids lease now table table' h =
    let (_, h1) = >>-eq-ok (validate_label owner) _ h in
    let (t, _, h2) = >>=-eq-ok (store_clock time now) _ h1 in
    let (_, h3) = >>-eq-ok (require (duration_valid lease && distinct ids) _) _ h2 in
    renew_loop-Advances json_bytes owner t (t + duration lease) ids table table' h3

-- update_leased without a time of the caller reads the clock.
pub update_leased-now :
    (json_bytes : Job → ℕ) (time : ℕ) (owner : String) (changes : List (String × Changes × Bool))
    (table : Jobs) {p : Jobs × Jobs}
    → update_leased json_bytes time owner changes none table ≡ ok p
    → update_leased_loop json_bytes owner time changes [] table ≡ ok p
unfolding update_leased store_clock
update_leased-now json_bytes time owner changes table h = h
