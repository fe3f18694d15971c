-- ===== src/Sources/Currency.antt =====
-- store.py, `_put_source` and `retire_source`: the current revision is what was put last.
use parliament.Base.{
  Bool-cases, str_eq_refl, ok, ℕ, ◌+◌, String, ◌≡◌, refl, sym, ◌∙◌, subst, inl, inr, Bool, true,
  false, not, Option, none, some,
}
use parliament.Value.{Value}
use parliament.Sources.{
  Source, Store, source_of, put_source, already_current, next_generation, retire_source,
  retire_found, source_current, row_current,
}
use parliament.Sources.Tables.{source_of-update}
use parliament.Sources.Versions.{put_source-Put, write_revision-source_of}

row_current-eq :
    (o : Option Source) (fingerprint : String)
    → row_current o fingerprint none ≡ already_current o fingerprint
unfolding already_current row_current
row_current-eq none fingerprint = refl
row_current-eq (some r) fingerprint = refl

-- After a put the revision is the current one of its scope, and there was a transition exactly when
-- it was not before.
pub put_source-current :
    (time : ℕ) (scope fingerprint : String) (payload : Value) (s : Store) (moved : Bool)
    (s' : Store)
    → put_source time scope fingerprint payload s ≡ ok (moved, s')
    → (source_current scope fingerprint none s' ≡ true)
      × (moved ≡ not (source_current scope fingerprint none s))
unfolding source_current
put_source-current time scope fingerprint payload s moved s' h =
    let e₀ = row_current-eq (source_of scope s.sources) fingerprint in
    elim (put_source-Put time scope fingerprint payload s moved s' h).outcome [
      | inl (old, m, e) ↦ (rw e (e₀ ∙ old), rw (m, e₀, old) refl)
      | inr (new, m, e) ↦ (
        rw (e, write_revision-source_of time scope fingerprint payload _ s)
            (row_current-eq (some _) fingerprint
              ∙ fresh_current fingerprint (next_generation (source_of scope s.sources)) payload
                  scope),
        rw (m, e₀, new) refl,
      )
    ]
  where
    fresh_current :
        (f : String) (g : ℕ) (p : Value) (x : String)
        → already_current
            (some
              (record { scope = x; fingerprint = f; generation = g; payload = p; active = true }))
            f
          ≡ true
    fresh_current f g p x = unfold already_current in rw (str_eq_refl f) refl

inactive_row :
    (r : Source) (f : String) (g : Option ℕ) → r.active ≡ false → row_current (some r) f g ≡ false
unfolding row_current
inactive_row r f none e = rw e
inactive_row r f (some n) e = rw e

retire_found-not_current :
    (time : ℕ) (scope f : String) (g : Option ℕ) (o : Option Source) (s : Store)
    → source_of scope s.sources ≡ o
    → (row_current (source_of scope (retire_found time scope o s).1.sources) f g ≡ false)
      × ((retire_found time scope o s).1.versions ≡ s.versions)
unfolding retire_found
retire_found-not_current time scope f g none s found = (rw found (unfold row_current in refl), refl)
retire_found-not_current time scope f g (some prior) s found = elim (Bool-cases prior.active) [
  | inl live ↦
      let gone = λ (q : Source). record q { active = false; generation = prior.generation + 1 } in
      (
        rw (live, source_of-update scope scope gone s.sources (λ _. refl), str_eq_refl scope, found)
            (inactive_row (gone prior) f g refl),
        rw live refl,
      )
  | inr dead ↦
      let e : retire_found time scope (some prior) s ≡ (false, s) =
        unfold retire_found in rw dead refl in
      subst
        (λ (x : Bool × Store).
          (row_current (source_of scope x.1.sources) f g ≡ false) × (x.1.versions ≡ s.versions))
        (sym e)
        (subst (λ q. row_current q f g ≡ false) (sym found) (inactive_row prior f g dead), refl)
]

-- After a retirement the scope has no current revision, at any fingerprint or generation, and the
-- versions are all kept.
pub retire_source-not_current :
    (time : ℕ) (scope fingerprint : String) (generation : Option ℕ) (s : Store)
    → (source_current scope fingerprint generation (retire_source time scope s).1 ≡ false)
      × ((retire_source time scope s).1.versions ≡ s.versions)
unfolding source_current retire_source
retire_source-not_current time scope fingerprint generation s =
    retire_found-not_current time scope fingerprint generation (source_of scope s.sources) s refl
