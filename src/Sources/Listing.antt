-- ===== src/Sources/Listing.antt =====
-- store.py, GraphStore.observations, and source_observations.py, source_observation_times: reads of
-- the source tables.
use parliament.Base.{if◌then◌else◌, select, String, List, [], ◌∷◌, ◌++◌, map}
use parliament.Sources.{Source, Observation, Collected, Store}
use parliament.Sources.Observations.{is_time}

-- GraphStore.observations
unfoldable pub observations : Store → List Observation
observations s = s.observations

-- the row of source_observation_times that the JOIN pairs with a revision
pub collected_of : Source → List Collected → List (String × String)
collected_of r times =
    map (λ c. (r.scope, c.last_observed_at))
      (select (is_time r.scope r.fingerprint r.generation) times)

-- SourceObservationMixin.source_observation_times, as the list of its entries
unfoldable pub source_observation_times : List Source → List Collected → List (String × String)
unfolding collected_of
source_observation_times [] times = []
source_observation_times (r ∷ rows) times =
    (if r.active then collected_of r times else []) ++ source_observation_times rows times
