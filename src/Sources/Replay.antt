-- ===== src/Sources/Replay.antt =====
-- store.py, `_put_source` and `retire_source`: the log of observations determines the table of sources.
use parliament.Base.{
  if◌then◌else◌, Bool-cases, ok, require, >>-eq-ok, ℕ, suc, ◌+◌, String, ◌≡◌, refl, ap, ◌∙◌, subst,
  inl, inr, Bool, true, false, Option, none, some, List, [], ◌∷◌, ◌++◌, arith, str_eq, str_eq_iff,
  ok-injective,
}
use parliament.Value.{Value}
use parliament.Sources.{
  Source, Observation, Store, empty, source_of, put_source, already_current, next_generation,
  write_revision, version_agrees, retire_source, retire_found, version_of, validate_label,
}
use parliament.Sources.Tables.{source_of-replace, source_of-update}

-- what the log says last of a scope: its fingerprint, its generation and whether it is active
abbrev pub Head : Type 0
Head = String × ℕ × Bool

abbrev pub head_of : Option Source → Option Head
head_of none = none
head_of (some r) = some (r.fingerprint, r.generation, r.active)

abbrev pub replay : String → List Observation → Option Head → Option Head
replay scope [] head = head
replay scope (o ∷ os) head =
    replay scope os
      (if str_eq o.scope scope then some (o.fingerprint, o.generation, o.active) else head)

-- how many transitions of a scope the log holds
abbrev pub transitions : String → List Observation → ℕ
transitions scope [] = 0
transitions scope (o ∷ os) =
    if str_eq o.scope scope then suc (transitions scope os) else transitions scope os

abbrev pub generation_of : Option Source → ℕ
generation_of none = 0
generation_of (some r) = r.generation

replay-snoc :
    (scope : String) (log : List Observation) (o : Observation) (head : Option Head)
    → replay scope (log ++ o ∷ []) head ≡ (
        if str_eq o.scope scope
        then some (o.fingerprint, o.generation, o.active)
        else replay scope log head)
replay-snoc scope [] o head = refl
replay-snoc scope (p ∷ log) o head =
    replay-snoc scope log o
      (if str_eq p.scope scope then some (p.fingerprint, p.generation, p.active) else head)

transitions-snoc :
    (scope : String) (log : List Observation) (o : Observation)
    → transitions scope (log ++ o ∷ [])
      ≡ (if str_eq o.scope scope then suc (transitions scope log) else transitions scope log)
transitions-snoc scope [] o = refl
transitions-snoc scope (p ∷ log) o = ground (arith, transitions-snoc scope log o)

-- The table is what the log replays to, and a generation counts the transitions of its source.
pub record IsReplayed (s : Store) : Type 0 where
  pub heads :
      (scope : String) → head_of (source_of scope s.sources) ≡ replay scope s.observations none
  pub counts :
      (scope : String)
      → generation_of (source_of scope s.sources) ≡ transitions scope s.observations

pub empty-IsReplayed : IsReplayed empty
empty-IsReplayed = record { heads = λ _. refl; counts = λ _. refl }

next_generation-suc : (o : Option Source) → next_generation o ≡ suc (generation_of o)
unfolding next_generation
next_generation-suc none = refl
next_generation-suc (some r) = omega arith

write_revision-IsReplayed :
    (time : ℕ) (scope fingerprint : String) (payload : Value) (s : Store)
    → IsReplayed s
    → IsReplayed (
        write_revision time scope fingerprint payload
          (next_generation (source_of scope s.sources))
          s)
unfolding write_revision
write_revision-IsReplayed time scope fingerprint payload s r = record {
  heads = λ x.
      rw (source_of-replace x s.sources _, replay-snoc x s.observations _ none)
        (branch (str_eq scope x) _ _ (r.heads x));
  counts = λ x. elim (Bool-cases (str_eq scope x)) [
    | inl same' ↦
        let e = (str_eq_iff scope x).0 same' in
        rw (source_of-replace x s.sources _, transitions-snoc x s.observations _, same')
          (next_generation-suc (source_of scope s.sources)
            ∙ ap suc (r.counts scope ∙ ap (λ y. transitions y s.observations) e))
    | inr other ↦
        rw (source_of-replace x s.sources _, transitions-snoc x s.observations _, other)
          (r.counts x)
  ];
}
  where
    branch :
        (b : Bool) (row : Source) (o : Option Source) {h : Option Head}
        → head_of o ≡ h
        → head_of (if b then some row else o)
          ≡ (if b then some (row.fingerprint, row.generation, row.active) else h)
    branch true row o e = refl
    branch false row o e = e

retire_found-IsReplayed :
    (time : ℕ) (scope : String) (o : Option Source) (s : Store)
    → source_of scope s.sources ≡ o
    → IsReplayed s
    → IsReplayed (retire_found time scope o s).1
unfolding retire_found
retire_found-IsReplayed time scope none s found r = r
retire_found-IsReplayed time scope (some prior) s found r = elim (Bool-cases prior.active) [
  | inl live ↦
      let gone = λ (q : Source). record q { active = false; generation = prior.generation + 1 } in
      let row = λ (x : String). source_of-update x scope gone s.sources (λ _. refl) in
      let here = λ (x : String) (same' : str_eq scope x ≡ true).
        subst (λ y. source_of y s.sources ≡ some prior) ((str_eq_iff scope x).0 same') found in
      rw live (record {
        heads = λ x. elim (Bool-cases (str_eq scope x)) [
          | inl same' ↦ rw (row x, replay-snoc x s.observations _ none, same', here x same') refl
          | inr other ↦ rw (row x, replay-snoc x s.observations _ none, other) (r.heads x)
        ];
        counts = λ x. elim (Bool-cases (str_eq scope x)) [
          | inl same' ↦
              let c : prior.generation ≡ transitions x s.observations =
                rw (here x same') at (r.counts x) in
              rw (row x, transitions-snoc x s.observations _, same', here x same')
                (omega (arith, c))
          | inr other ↦ rw (row x, transitions-snoc x s.observations _, other) (r.counts x)
        ];
      })
  | inr dead ↦ rw dead r
]

-- A retirement keeps the table of sources the replay of the log.
pub retire_source-IsReplayed :
    (time : ℕ) (scope : String) (s : Store)
    → IsReplayed s
    → IsReplayed (retire_source time scope s).1
unfolding retire_source
retire_source-IsReplayed time scope s r =
    retire_found-IsReplayed time scope (source_of scope s.sources) s refl r

-- Whatever is loaded, the table of sources is the replay of the log, and a source's generation is the
-- number of its transitions.
pub put_source-IsReplayed :
    (time : ℕ) (scope fingerprint : String) (payload : Value) (s : Store) (moved : Bool)
    (s' : Store)
    → put_source time scope fingerprint payload s ≡ ok (moved, s')
    → IsReplayed s
    → IsReplayed s'
unfolding put_source
put_source-IsReplayed time scope fingerprint payload s moved s' h r =
    let (_, h1) = >>-eq-ok (validate_label scope) _ h in
    let (_, h2) = >>-eq-ok (validate_label fingerprint) _ h1 in
    let (_, h3) =
      >>-eq-ok (require (version_agrees (version_of scope fingerprint s.versions) payload) _) _
        h2 in
    elim (Bool-cases (already_current (source_of scope s.sources) fingerprint)) [
      | inl old ↦ subst IsReplayed (ap (λ (x : Bool × Store). x.1) (ok-injective (rw old at h3))) r
      | inr new ↦
          subst IsReplayed (ap (λ (x : Bool × Store). x.1) (ok-injective (rw new at h3)))
            (write_revision-IsReplayed time scope fingerprint payload s r)
    ]
