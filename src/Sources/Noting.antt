-- ===== src/Sources/Noting.antt =====
-- source_observations.py, SourceObservationMixin._record_source_observation: the row of collection
-- times that an observation leaves.
use parliament.Base.{
  Bool-cases, find, &&-eq-true, str_eq_iff, str_eq_refl, ok-injective, ok, >>=-eq-ok, ℕ, String,
  ◌≡◌, refl, sym, ◌∙◌, subst, inl, inr, Bool, true, false, ◌&&◌, Option, none, some, arith, str_eq,
  ◌==◌,
}
use parliament.Base.Tables.{
  find-some, find-update_where, find-update_where_ne, find-append_new, find-append_ne,
}
use parliament.Sources.{Source, Collected, Store, source_of}
use parliament.Sources.Observations.{record_observation, collect, current_row, is_time, text_le}
use parliament.Sources.Observing.{SameRevisions, collect-SameRevisions}

-- when the first observation of a revision was made
abbrev pub begun_at : Option Collected → String → String
begun_at none at = at
begun_at (some prior) at = prior.first_observed_at

-- The row of a revision after an observation: it has the new time where the observation was counted,
-- and at least that late a time where it was not, and then nothing was written. The time of its first
-- observation is kept, and so are the rows of all other revisions.
pub record Noted (scope fingerprint : String) (generation : ℕ) (at : String) (moved : Bool)
    (s s' : Store) : Type 0 where
  pub row : Collected
  pub found : find (is_time scope fingerprint generation) s'.times ≡ some row
  pub advanced : moved ≡ true → row.last_observed_at ≡ at
  pub kept : moved ≡ false → (s' ≡ s) × (text_le at row.last_observed_at ≡ true)
  pub begun :
      row.first_observed_at ≡ begun_at (find (is_time scope fingerprint generation) s.times) at
  pub others :
      (x f : String) (g : ℕ)
      → is_time x f g row ≡ false
      → find (is_time x f g) s'.times ≡ find (is_time x f g) s.times

-- two rows that pass one test have the same key
is_time-same :
    (scope fingerprint x f : String) (generation g : ℕ) (c d : Collected)
    → is_time scope fingerprint generation c ≡ true
    → is_time scope fingerprint generation d ≡ true
    → is_time x f g c ≡ is_time x f g d
is_time-same scope fingerprint x f generation g c d h k =
    let (p, p₃) = &&-eq-true (str_eq c.scope scope && str_eq c.fingerprint fingerprint) _ h in
    let (p₁, p₂) = &&-eq-true (str_eq c.scope scope) _ p in
    let (q, q₃) = &&-eq-true (str_eq d.scope scope && str_eq d.fingerprint fingerprint) _ k in
    let (q₁, q₂) = &&-eq-true (str_eq d.scope scope) _ q in
    let one = (str_eq_iff c.scope scope).0 p₁ ∙ sym ((str_eq_iff d.scope scope).0 q₁) in
    let two =
      (str_eq_iff c.fingerprint fingerprint).0 p₂
      ∙ sym ((str_eq_iff d.fingerprint fingerprint).0 q₂) in
    let three : c.generation ≡ d.generation = ground (arith, p₃, q₃) in rw (one, two, three) refl

collect-Noted :
    (o : Option Collected) (scope fingerprint : String) (g : ℕ) (at : String) (s : Store)
    → find (is_time scope fingerprint g) s.times ≡ o
    → Noted scope fingerprint g at
        (collect o scope fingerprint g at s).0
        s
        (collect o scope fingerprint g at s).1
unfolding collect
collect-Noted none scope fingerprint g at s h =
    let row : Collected = record {
      scope = scope;
      fingerprint = fingerprint;
      generation = g;
      first_observed_at = at;
      last_observed_at = at;
    } in
    record {
      row = row;
      found = find-append_new (is_time scope fingerprint g) s.times row h (own row refl refl refl);
      advanced = λ _. refl;
      kept = λ e. absurd (let x = e in cc);
      begun = rw h refl;
      others = λ x f k e. find-append_ne (is_time x f k) s.times row e;
    }
  where
    own :
        (c : Collected)
        → c.scope ≡ scope
        → c.fingerprint ≡ fingerprint
        → c.generation ≡ g
        → is_time scope fingerprint g c ≡ true
    own c a b d =
        let n : (g == g) ≡ true = ground arith in
        rw (a, b, d, str_eq_refl scope, str_eq_refl fingerprint, n) refl
collect-Noted (some prior) scope fingerprint g at s h =
    elim (Bool-cases (text_le at prior.last_observed_at)) [
      | inl stale ↦ rw stale (record {
        row = prior;
        found = h;
        advanced = λ e. absurd (let x = e in cc);
        kept = λ _. (refl, stale);
        begun = rw h refl;
        others = λ x f k e. refl;
      })
      | inr newer ↦ rw newer (record {
        row = record prior { last_observed_at = at };
        found =
            find-update_where (is_time scope fingerprint g)
              (λ c. record c { last_observed_at = at }) s.times (λ c. refl) h;
        advanced = λ _. refl;
        kept = λ e. absurd (let x = e in cc);
        begun = rw h refl;
        others = λ x f k e.
            find-update_where_ne (is_time scope fingerprint g) (is_time x f k)
              (λ c. record c { last_observed_at = at }) s.times
              (λ c hc.
                let same =
                  is_time-same scope fingerprint x f g k c prior hc
                    (find-some (is_time scope fingerprint g) s.times h)
                  ∙ e in
                (same, same));
      })
    ]

-- An accepted observation with a time names the current revision of its source, whose row of
-- collection times it finds or adds: `Noted` describes that row and the others. It changes no source,
-- no version and no entry of the log.
pub record_observation-Noted :
    (scope fingerprint at : String) (s : Store) (moved : Bool) (s' : Store)
    → record_observation scope fingerprint (some at) s ≡ ok (moved, s')
    → (r : Source) × (source_of scope s.sources ≡ some r)
      × (r.active ≡ true)
      × (r.fingerprint ≡ fingerprint)
      × Noted scope fingerprint r.generation at moved s s'
      × SameRevisions s s'
unfolding record_observation
record_observation-Noted scope fingerprint at s moved s' h =
    let (r, g, k) = >>=-eq-ok (current_row (source_of scope s.sources) fingerprint) _ h in
    let e = ok-injective k in
    let (row, active, same) = current (source_of scope s.sources) r g in
    (
      r,
      row,
      active,
      same,
      subst (λ (x : Bool × Store). Noted scope fingerprint r.generation at x.0 s x.1) e
          (collect-Noted _ scope fingerprint r.generation at s refl),
      subst (λ (x : Bool × Store). SameRevisions s x.1) e
          (collect-SameRevisions _ scope fingerprint r.generation at s),
    )
  where
    current :
        (o : Option Source) (r : Source)
        → current_row o fingerprint ≡ ok r
        → (o ≡ some r) × (r.active ≡ true) × (r.fingerprint ≡ fingerprint)
    current none r e = absurd (unfold current_row in let x = e in cc)
    current (some q) r e =
        unfold current_row in
        elim (Bool-cases (q.active && str_eq q.fingerprint fingerprint)) [
          | inl fine ↦
              let (a, b) = &&-eq-true q.active (str_eq q.fingerprint fingerprint) fine in
              let i = ok-injective (rw fine at e) in
              subst
                (λ (x : Source).
                  (some q ≡ some x) × (x.active ≡ true) × (x.fingerprint ≡ fingerprint))
                i (refl, a, (str_eq_iff q.fingerprint fingerprint).0 b)
          | inr stale ↦ absurd (let x = rw stale at e in cc)
        ]
