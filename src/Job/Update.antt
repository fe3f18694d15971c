-- ===== src/Job/Update.antt =====
-- store_schema.py, `updated_job`: what an accepted update satisfies.
use parliament.Base.{
  refl, err, some, Bool, true, false, ap, sym, ◌∙◌, if◌then◌else◌, String, Option, ok-injective,
  invalid_transition, subst, ℕ, ◌≡◌, true, ◌||◌, not, arith, ok, >>=-eq-ok, >>-eq-ok, require-eq-ok,
  is_nil, some-eq, none,
}
use parliament.Job.{
  truthy, polling, JobState, Job, Changes, given, next_state, frozen, unchanged, remote_id_kept,
  attempts_valid, next_poll_valid, remote_ready, result_ready, changes_clear, apply_changes,
  updated_job, enter_state, state_of_name, same_state, transition, reading_or,
}

-- Every guard of an accepted update, and the job that comes out.
pub record Accepted (j : Job) (c : Changes) (now : ℕ) (j' : Job) : Type 0 where
  pub state : JobState
  pub known : is_nil c.unknown ≡ true
  pub stepped : next_state j.state c.state ≡ ok state
  pub sealed : (not (frozen j.state) || unchanged j c) ≡ true
  pub remote : remote_id_kept j.remote_id c.remote_id ≡ true
  pub counted : attempts_valid c.attempts j.attempts ≡ true
  pub polled : next_poll_valid c.next_poll ≡ true
  pub addressed : remote_ready state (given c.remote_id j.remote_id) ≡ true
  pub resulted : result_ready state (given c.result j.result) ≡ true
  pub clear : changes_clear c ≡ true
  pub built : j' ≡ apply_changes j c state now

-- An accepted update passed every guard in turn.
pub updated_job-Accepted :
    (j : Job) (c : Changes) (now : ℕ) {j' : Job} → updated_job j c now ≡ ok j' → Accepted j c now j'
unfolding updated_job
updated_job-Accepted j c now h =
    let (g1, h1) = >>-eq-ok _ _ h in
    let (s, g2, h2) = >>=-eq-ok _ _ h1 in
    let (g3, h3) = >>-eq-ok _ _ h2 in
    let (g4, h4) = >>-eq-ok _ _ h3 in
    let (g5, h5) = >>-eq-ok _ _ h4 in
    let (g6, h6) = >>-eq-ok _ _ h5 in
    let (g7, h7) = >>-eq-ok _ _ h6 in
    let (g8, h8) = >>-eq-ok _ _ h7 in
    let (g9, h9) = >>-eq-ok _ _ h8 in
    record {
      state = s;
      known = require-eq-ok _ _ g1;
      stepped = g2;
      sealed = require-eq-ok _ _ g3;
      remote = require-eq-ok _ _ g4;
      counted = require-eq-ok _ _ g5;
      polled = require-eq-ok _ _ g6;
      addressed = require-eq-ok _ _ g7;
      resulted = require-eq-ok _ _ g8;
      clear = require-eq-ok _ _ g9;
      built = ground arith;
    }

entered_state :
    (old : JobState) (o : Option JobState) (named s : JobState)
    → o ≡ some named
    → enter_state old o ≡ ok s
    → s ≡ named
unfolding enter_state
entered_state old none named s e h = cc
entered_state old (some k) named s e h =
    entered (same_state k old || transition old k) h ∙ some-eq e
  where
    entered : (b : Bool) → (if b then ok k else err invalid_transition) ≡ ok s → s ≡ k
    entered true r = sym (ok-injective r)
    entered false r = cc

built_state :
    (j : Job) (c : Changes) (now : ℕ) (s : JobState) {j' : Job}
    → j' ≡ apply_changes j c s now
    → j'.state ≡ s
unfolding apply_changes
built_state j c now s e = ap (λ (x : Job). x.state) e

-- An accepted update that names a state ends in it.
pub updated_job-state :
    (j : Job) (c : Changes) (now : ℕ) (name : String) (named : JobState) {j' : Job}
    → updated_job j c now ≡ ok j'
    → c.state ≡ some name
    → state_of_name name ≡ some named
    → j'.state ≡ named
updated_job-state j c now name named {j'} h e k =
    let a = updated_job-Accepted j c now h in
    built_state j c now a.state a.built
    ∙ entered_state j.state (state_of_name name) named a.state k (step a.state a.stepped)
  where
    step :
        (s : JobState)
        → next_state j.state c.state ≡ ok s
        → enter_state j.state (state_of_name name) ≡ ok s
    step s h = unfold next_state in (subst (λ (o : Option String). next_state j.state o ≡ ok s) e h)

-- and one that names none keeps it.
pub updated_job-same_state :
    (j : Job) (c : Changes) (now : ℕ) {j' : Job}
    → updated_job j c now ≡ ok j'
    → c.state ≡ none
    → j'.state ≡ j.state
updated_job-same_state j c now {j'} h e =
    let a = updated_job-Accepted j c now h in
    built_state j c now a.state a.built
    ∙ entered_state j.state (some j.state) j.state a.state refl (step a.state a.stepped)
  where
    step :
        (s : JobState)
        → next_state j.state c.state ≡ ok s
        → enter_state j.state (some j.state) ≡ ok s
    step s h = unfold next_state in (subst (λ (o : Option String). next_state j.state o ≡ ok s) e h)

-- The remote id and the metadata after an accepted update.
pub updated_job-remote :
    (j : Job) (c : Changes) (now : ℕ) {j' : Job}
    → updated_job j c now ≡ ok j'
    → j'.remote_id ≡ given c.remote_id j.remote_id
updated_job-remote j c now {j'} h =
    built (updated_job-Accepted j c now h).state (updated_job-Accepted j c now h).built
  where
    built :
        (s : JobState) → j' ≡ apply_changes j c s now → j'.remote_id ≡ given c.remote_id j.remote_id
    built s e = unfold apply_changes in ap (λ (x : Job). x.remote_id) e

pub updated_job-metadata :
    (j : Job) (c : Changes) (now : ℕ) {j' : Job}
    → updated_job j c now ≡ ok j'
    → j'.metadata ≡ given c.metadata j.metadata
updated_job-metadata j c now {j'} h =
    built (updated_job-Accepted j c now h).state (updated_job-Accepted j c now h).built
  where
    built :
        (s : JobState) → j' ≡ apply_changes j c s now → j'.metadata ≡ given c.metadata j.metadata
    built s e = unfold apply_changes in ap (λ (x : Job). x.metadata) e

-- The time of the next poll after an accepted update.
pub updated_job-next_poll :
    (j : Job) (c : Changes) (now : ℕ) {j' : Job}
    → updated_job j c now ≡ ok j'
    → j'.next_poll ≡ reading_or c.next_poll j.next_poll
updated_job-next_poll j c now {j'} h =
    built (updated_job-Accepted j c now h).state (updated_job-Accepted j c now h).built
  where
    built :
        (s : JobState)
        → j' ≡ apply_changes j c s now
        → j'.next_poll ≡ reading_or c.next_poll j.next_poll
    built s e = unfold apply_changes in ap (λ (x : Job). x.next_poll) e

-- A job that is polling after an accepted update has a remote id.
pub updated_job-polling :
    (j : Job) (c : Changes) (now : ℕ) {j' : Job}
    → updated_job j c now ≡ ok j'
    → j'.state ≡ polling
    → truthy j'.remote_id ≡ true
updated_job-polling j c now {j'} h p =
    let a = updated_job-Accepted j c now h in
    ready a.state (sym (built_state j c now a.state a.built) ∙ p) (
      subst (λ (o : Option String). remote_ready a.state o ≡ true)
        (sym (updated_job-remote j c now h)) a.addressed)
  where
    ready :
        (s : JobState)
        → s ≡ polling
        → remote_ready s j'.remote_id ≡ true
        → truthy j'.remote_id ≡ true
    ready s e r =
        unfold remote_ready in (subst (λ (x : JobState). remote_ready x j'.remote_id ≡ true) e r)

-- An accepted update leaves the lease as it is.
pub updated_job-lease :
    (j : Job) (c : Changes) (now : ℕ) {j' : Job}
    → updated_job j c now ≡ ok j'
    → j'.lease_owner ≡ j.lease_owner
updated_job-lease j c now {j'} h =
    built (updated_job-Accepted j c now h).state (updated_job-Accepted j c now h).built
  where
    built : (s : JobState) → j' ≡ apply_changes j c s now → j'.lease_owner ≡ j.lease_owner
    built s e = unfold apply_changes in ap (λ (x : Job). x.lease_owner) e

pub updated_job-until :
    (j : Job) (c : Changes) (now : ℕ) {j' : Job}
    → updated_job j c now ≡ ok j'
    → j'.lease_until ≡ j.lease_until
updated_job-until j c now {j'} h =
    built (updated_job-Accepted j c now h).state (updated_job-Accepted j c now h).built
  where
    built : (s : JobState) → j' ≡ apply_changes j c s now → j'.lease_until ≡ j.lease_until
    built s e = unfold apply_changes in ap (λ (x : Job). x.lease_until) e
