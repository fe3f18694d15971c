-- ===== src/Sources/Versions.antt =====
-- store.py, `_put_source`: original versions are immutable.
use parliament.Base.{
  Bool-cases, str_eq_refl, ok, require, >>-eq-ok, require-eq-ok, ℕ, String, ◌≡◌, refl, sym, ap, ◌∙◌,
  ◌⊎◌, inl, inr, Bool, true, false, Option, none, some, List, str_eq, str_eq_iff, ok-injective,
  some-eq,
}
use mathlib.Core.Path.{subst₂}
use parliament.Value.{Value, eq_of_same, validate_label}
use parliament.Sources.{
  Source, Version, Store, source_of, version_of, insert_version, put_source, already_current,
  next_generation, write_revision, version_agrees,
}
use parliament.Sources.Tables.{source_of-replace, version_of-insert, kept}

-- what an accepted put has checked, and the store that it leaves
pub record Put (time : ℕ) (scope fingerprint : String) (payload : Value) (s : Store) (moved : Bool)
    (s' : Store) : Type 0 where
  pub agrees : version_agrees (version_of scope fingerprint s.versions) payload ≡ true
  pub outcome :
      ((already_current (source_of scope s.sources) fingerprint ≡ true)
        × (moved ≡ false)
        × (s' ≡ s))
      ⊎ ((already_current (source_of scope s.sources) fingerprint ≡ false)
          × (moved ≡ true)
          × (s'
              ≡ write_revision time scope fingerprint payload
                  (next_generation (source_of scope s.sources))
                  s))

pub put_source-Put :
    (time : ℕ) (scope fingerprint : String) (payload : Value) (s : Store) (moved : Bool)
    (s' : Store)
    → put_source time scope fingerprint payload s ≡ ok (moved, s')
    → Put time scope fingerprint payload s moved s'
unfolding put_source
put_source-Put time scope fingerprint payload s moved s' h =
    let (_, h1) = >>-eq-ok (validate_label scope) _ h in
    let (_, h2) = >>-eq-ok (validate_label fingerprint) _ h1 in
    let (g, h3) =
      >>-eq-ok (require (version_agrees (version_of scope fingerprint s.versions) payload) _) _
        h2 in
    record {
      agrees = require-eq-ok _ _ g;
      outcome = elim (Bool-cases (already_current (source_of scope s.sources) fingerprint)) [
        | inl old ↦
            let e = ok-injective (rw old at h3) in
            inl
              (old, sym (ap (λ (x : Bool × Store). x.0) e), sym (ap (λ (x : Bool × Store). x.1) e))
        | inr new ↦
            let e = ok-injective (rw new at h3) in
            inr
              (new, sym (ap (λ (x : Bool × Store). x.0) e), sym (ap (λ (x : Bool × Store). x.1) e))
      ];
    }

abbrev versions_after : Value → String → String → Store → List Version
versions_after payload scope fingerprint s =
    insert_version (version_of scope fingerprint s.versions)
      (record { scope = scope; fingerprint = fingerprint; payload = payload }) s.versions

write_revision-versions :
    (time : ℕ) (scope fingerprint : String) (payload : Value) (n : ℕ) (s : Store)
    → (write_revision time scope fingerprint payload n s).versions
      ≡ versions_after payload scope fingerprint s
unfolding write_revision
write_revision-versions time scope fingerprint payload n s = refl

pub write_revision-source_of :
    (time : ℕ) (scope fingerprint : String) (payload : Value) (n : ℕ) (s : Store)
    → source_of scope (write_revision time scope fingerprint payload n s).sources
      ≡ some (record {
        scope = scope;
        fingerprint = fingerprint;
        generation = n;
        payload = payload;
        active = true;
      })
unfolding write_revision
write_revision-source_of time scope fingerprint payload n s =
    rw (source_of-replace scope s.sources _, str_eq_refl scope) refl

-- A version once stored reads the same after every put.
pub put_source-keeps_version :
    (time : ℕ) (scope fingerprint : String) (payload : Value) (s : Store) (moved : Bool)
    (s' : Store) (x y : String) (v : Version)
    → put_source time scope fingerprint payload s ≡ ok (moved, s')
    → version_of x y s.versions ≡ some v
    → version_of x y s'.versions ≡ some v
put_source-keeps_version time scope fingerprint payload s moved s' x y v h old =
    elim (put_source-Put time scope fingerprint payload s moved s' h).outcome [
      | inl (_, _, e) ↦ rw e old
      | inr (_, _, e) ↦
          rw
            (
              e,
              write_revision-versions time scope fingerprint payload _ s,
              version_of-insert x y _ s.versions,
              old,
            )
            refl
    ]

-- Every source has its version, with the payload that it carries.
pub record IsVersioned (s : Store) : Type 0 where
  pub stored :
      (scope : String) (r : Source)
      → source_of scope s.sources ≡ some r
      → (v : Version) × (version_of scope r.fingerprint s.versions ≡ some v)
        × (v.payload ≡ r.payload)

version_agrees-payload :
    (o : Option Version) (v : Version) (payload : Value)
    → version_agrees o payload ≡ true
    → v.payload ≡ payload
    → (w : Version) × (kept o true v ≡ some w) × (w.payload ≡ payload)
unfolding version_agrees
version_agrees-payload none v payload h e = (v, refl, e)
version_agrees-payload (some old) v payload h e = (old, refl, eq_of_same old.payload payload h)

write_revision-IsVersioned :
    (time : ℕ) (scope fingerprint : String) (payload : Value) (n : ℕ) (s : Store)
    → version_agrees (version_of scope fingerprint s.versions) payload ≡ true
    → IsVersioned s
    → IsVersioned (write_revision time scope fingerprint payload n s)
unfolding write_revision
write_revision-IsVersioned time scope fingerprint payload n s agrees q = record {
  stored = λ x r found. elim (Bool-cases (str_eq scope x)) [
    | inl same' ↦
        let e = (str_eq_iff scope x).0 same' in
        let mine = some-eq (rw (source_of-replace x s.sources _, same') at found) in
        let (w, here, pay) =
          version_agrees-payload (version_of scope fingerprint s.versions)
            (record { scope = scope; fingerprint = fingerprint; payload = payload }) payload agrees
            refl in
        let f : version_of scope fingerprint (versions_after payload scope fingerprint s) ≡ some w =
          rw
            (
              version_of-insert scope fingerprint _ s.versions,
              str_eq_refl scope,
              str_eq_refl fingerprint,
            )
            here in
        (
          w,
          subst₂ (λ y z. version_of y z (versions_after payload scope fingerprint s) ≡ some w) e
              (ap (λ (q : Source). q.fingerprint) mine) f,
          pay ∙ ap (λ (q : Source). q.payload) mine,
        )
    | inr other ↦
        let (v, old, p) = q.stored x r (rw (source_of-replace x s.sources _, other) at found) in
        (v, rw (version_of-insert x r.fingerprint _ s.versions, old) refl, p)
  ];
}

-- The payload of every source is stored as the version that its fingerprint names.
pub put_source-IsVersioned :
    (time : ℕ) (scope fingerprint : String) (payload : Value) (s : Store) (moved : Bool)
    (s' : Store)
    → put_source time scope fingerprint payload s ≡ ok (moved, s')
    → IsVersioned s
    → IsVersioned s'
put_source-IsVersioned time scope fingerprint payload s moved s' h q =
    let p = put_source-Put time scope fingerprint payload s moved s' h in
    elim p.outcome [
      | inl (_, _, e) ↦ rw e q
      | inr (_, _, e) ↦
          rw e (write_revision-IsVersioned time scope fingerprint payload _ s p.agrees q)
    ]
