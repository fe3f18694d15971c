-- ===== src/Sources/Samples.antt =====
-- Runs of the source store on small inputs, and the theorems at these inputs.
use parliament.Base.{ok, ℕ, String, ◌≡◌, refl, true, Option, none, some, List, [], ◌∷◌}
use parliament.Value.{Value, num, pos, same, label_valid, validate_label}
use parliament.Sources.{
  sources, Source, Version, Observation, Store, empty, put_source, retire_source, source_current,
  source_of,
}
use parliament.Sources.Observations.{Item, put_sources, record_observation, normalize_observed_at}
use parliament.Sources.Listing.{observations, source_observation_times}
use parliament.Sources.Replay.{IsReplayed, empty-IsReplayed, put_source-IsReplayed}
use parliament.Sources.Versions.{IsVersioned, put_source-IsVersioned}
use parliament.Sources.Noting.{Noted, record_observation-Noted}
use parliament.Sources.Observing.{SameRevisions, IsSound, put_sources-IsSound}

abbrev page : ℕ → Value
page n = num (pos n)

abbrev row : String → ℕ → ℕ → Source
row f g n = record { scope = "s"; fingerprint = f; generation = g; payload = page n; active = true }

abbrev seen : String → ℕ → ℕ → Observation
seen f g time = record {
  scope = "s";
  fingerprint = f;
  generation = g;
  active = true;
  observed_at = time;
}

abbrev stored : String → ℕ → Version
stored f n = record { scope = "s"; fingerprint = f; payload = page n }

abbrev first : Store
first = record {
  sources = row "a" 1 1 ∷ [];
  versions = stored "a" 1 ∷ [];
  observations = seen "a" 1 7 ∷ [];
  times = [];
}

abbrev second : Store
second = record {
  sources = row "b" 2 2 ∷ [];
  versions = stored "a" 1 ∷ stored "b" 2 ∷ [];
  observations = seen "a" 1 7 ∷ seen "b" 2 8 ∷ [];
  times = [];
}

code : Unit {0}
unfolding put_source put_sources retire_source record_observation normalize_observed_at
    source_current same label_valid validate_label
code = tt

put_run : put_source 7 "s" "a" (page 1) empty ≡ ok (true, first)
unfolding code
put_run = refl

put_again_run : put_source 8 "s" "b" (page 2) first ≡ ok (true, second)
unfolding code
put_again_run = refl

first-IsReplayed : IsReplayed first
first-IsReplayed =
    put_source-IsReplayed 7 "s" "a" (page 1) empty true first put_run empty-IsReplayed

put_source-IsReplayed_example : IsReplayed second
put_source-IsReplayed_example =
    put_source-IsReplayed 8 "s" "b" (page 2) first true second put_again_run first-IsReplayed

abbrev seen_at : Store
seen_at = record second {
  times =
      record {
        scope = "s";
        fingerprint = "b";
        generation = 2;
        first_observed_at = "T";
        last_observed_at = "T";
      }
      ∷ [];
}

observe_run : record_observation "s" "b" (some "T") second ≡ ok (true, seen_at)
unfolding code
observe_run = refl

-- a later observation of the revision whose row is there
abbrev seen_later : Store
seen_later = record seen_at {
  times =
      record {
        scope = "s";
        fingerprint = "b";
        generation = 2;
        first_observed_at = "T";
        last_observed_at = "U";
      }
      ∷ [];
}

observe_later_run : record_observation "s" "b" (some "U") seen_at ≡ ok (true, seen_later)
unfolding code
observe_later_run = refl

record_observation-Noted_example :
    (r : Source) × (source_of "s" seen_at.sources ≡ some r)
    × (r.active ≡ true)
    × (r.fingerprint ≡ "b")
    × Noted "s" "b" r.generation "U" true seen_at seen_later
    × SameRevisions seen_at seen_later
record_observation-Noted_example =
    record_observation-Noted "s" "b" "U" seen_at true seen_later observe_later_run

abbrev items : List Item
items =
    record { scope = "s"; fingerprint = "a"; payload = page 1; observed_at = none }
    ∷ record { scope = "s"; fingerprint = "b"; payload = page 2; observed_at = none }
    ∷ []

abbrev no_times : String → Option (Option String)
no_times s = none

both : Store
both = record second { observations = seen "a" 1 7 ∷ seen "b" 2 7 ∷ [] }

load_run : put_sources no_times 7 items 0 empty ≡ ok (2, both)
unfolding code both
load_run = refl

empty-IsVersioned : IsVersioned empty
empty-IsVersioned = record { stored = λ x r e. absurd (let e' = e in cc) }

put_sources-IsSound_example : IsSound both
put_sources-IsSound_example =
    put_sources-IsSound no_times 7 items 0 empty 2 both load_run
      (record { replayed = empty-IsReplayed; versioned = empty-IsVersioned })

put_source-IsVersioned_example : IsVersioned first
put_source-IsVersioned_example =
    put_source-IsVersioned 7 "s" "a" (page 1) empty true first put_run empty-IsVersioned

-- reads of the store
sources_run : sources true second ≡ row "b" 2 2 ∷ []
unfolding sources
sources_run = refl

observations_run : observations second ≡ seen "a" 1 7 ∷ seen "b" 2 8 ∷ []
unfolding observations
observations_run = refl

times_run : source_observation_times second.sources second.times ≡ []
unfolding source_observation_times
times_run = refl
