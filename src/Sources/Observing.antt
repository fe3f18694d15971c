-- ===== src/Sources/Observing.antt =====
-- store.py, put_sources, and source_observations.py: collection times stand beside the revisions and
-- change none of them; a batch keeps the store sound.
use parliament.Base.{
  ok-injective, ok, >>=-eq-ok, ℕ, ◌+◌, String, ◌≡◌, refl, subst, Bool, Option, none, some, List, [],
  ◌∷◌, arith, one_if,
}
use parliament.Sources.{Collected, Store, source_of, put_source}
use parliament.Sources.Observations.{
  Item, record_observation, collect, current_row, normalize_observed_at, put_sources,
}
use parliament.Sources.Replay.{IsReplayed, put_source-IsReplayed}
use parliament.Sources.Versions.{IsVersioned, put_source-IsVersioned}

-- The store but for its collection times.
pub record SameRevisions (s s' : Store) : Type 0 where
  pub sources : s'.sources ≡ s.sources
  pub versions : s'.versions ≡ s.versions
  pub observations : s'.observations ≡ s.observations

SameRevisions-refl : (s : Store) → SameRevisions s s
SameRevisions-refl s = record { sources = refl; versions = refl; observations = refl }

pub collect-SameRevisions :
    (o : Option Collected) (scope fingerprint : String) (g : ℕ) (at : String) (s : Store)
    → SameRevisions s (collect o scope fingerprint g at s).1
unfolding collect
collect-SameRevisions none scope fingerprint g at s = record {
  sources = refl;
  versions = refl;
  observations = refl;
}
collect-SameRevisions (some prior) scope fingerprint g at s = ground arith

record_observation-SameRevisions :
    (scope fingerprint : String) (at : Option String) (s : Store) (moved : Bool) (s' : Store)
    → record_observation scope fingerprint at s ≡ ok (moved, s')
    → SameRevisions s s'
unfolding record_observation
record_observation-SameRevisions scope fingerprint none s moved s' h =
    subst (λ (x : Bool × Store). SameRevisions s x.1) (ok-injective h) (SameRevisions-refl s)
record_observation-SameRevisions scope fingerprint (some at) s moved s' h =
    let (r, g, h1) = >>=-eq-ok (current_row (source_of scope s.sources) fingerprint) _ h in
    subst (λ (x : Bool × Store). SameRevisions s x.1) (ok-injective h1)
      (collect-SameRevisions _ scope fingerprint r.generation at s)

-- A store whose log replays to its sources and whose payloads are stored as versions.
pub record IsSound (s : Store) : Type 0 where
  pub replayed : IsReplayed s
  pub versioned : IsVersioned s

SameRevisions-IsSound : (s s' : Store) → SameRevisions s s' → IsSound s → IsSound s'
SameRevisions-IsSound s s' e q = record {
  replayed = record {
    heads = λ x. rw (e.sources, e.observations) (q.replayed.heads x);
    counts = λ x. rw (e.sources, e.observations) (q.replayed.counts x);
  };
  versioned = record {
    stored = λ x r f. rw e.versions (q.versioned.stored x r (rw e.sources at f));
  };
}

-- A batch of sources keeps the store sound, however often the sources change in it.
pub put_sources-IsSound :
    (to_utc : String → Option (Option String)) (time : ℕ) (items : List Item) (changed : ℕ)
    (s : Store) (n : ℕ) (s' : Store)
    → put_sources to_utc time items changed s ≡ ok (n, s')
    → IsSound s
    → IsSound s'
unfolding put_sources
put_sources-IsSound to_utc time [] changed s n s' h q =
    subst (λ (x : ℕ × Store). IsSound x.1) (ok-injective h) q
put_sources-IsSound to_utc time (i ∷ items) changed s n s' h q =
    let (p, g1, h1) = >>=-eq-ok (put_source time i.scope i.fingerprint i.payload s) _ h in
    let (at, _, h2) = >>=-eq-ok (normalize_observed_at to_utc i.observed_at) _ h1 in
    let (r, g3, h3) = >>=-eq-ok (record_observation i.scope i.fingerprint at p.1) _ h2 in
    let moved : IsSound p.1 = record {
      replayed = put_source-IsReplayed time i.scope i.fingerprint i.payload s p.0 p.1 g1 q.replayed;
      versioned =
          put_source-IsVersioned time i.scope i.fingerprint i.payload s p.0 p.1 g1 q.versioned;
    } in
    put_sources-IsSound to_utc time items (changed + one_if p.0) r.1 n s' h3 (
      SameRevisions-IsSound p.1 r.1
        (record_observation-SameRevisions i.scope i.fingerprint at p.1 r.0 r.1 g3) moved)
