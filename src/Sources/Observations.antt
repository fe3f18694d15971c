-- ===== src/Sources/Observations.antt =====
-- source_observations.py, and put_sources of store.py: the times at which a revision was observed.
use Prim.Native.Nat.{Ordering}
use Prim.Native.String.{compare as text_compare}
use parliament.Base.{
  ◌==◌, if◌then◌else◌, any, find, Result, ok, err, ◌>>=◌, ℕ, ◌+◌, String, Bool, true, false, ◌&&◌,
  not, Option, none, some, List, [], ◌∷◌, ◌++◌, str_eq, invalid_observation_time, stale_observation,
  naive_observation_time, one_if,
}
use parliament.Base.Tables.{update_where}
use parliament.Value.{Value, null, str, codes}
use parliament.Sources.{Source, Collected, Store, source_of, put_source}

abbrev pub text_le : String → String → Bool
text_le s t = elim (text_compare s t) [ Ordering.gt ↦ false | _ ↦ true ]

-- source_observations.normalize_observed_at
unfoldable pub normalize_observed_at :
    (String → Option (Option String)) → Option Value → Result (Option String)
normalize_observed_at to_utc none = ok none
normalize_observed_at to_utc (some null) = ok none
normalize_observed_at to_utc (some (str s)) =
    if str_eq s ""
    then ok none
    else if not (any (λ c. c == 84) (codes s))
    then err invalid_observation_time
    else elim (to_utc s) [
      | none ↦ err invalid_observation_time
      | some none ↦ err naive_observation_time
      | some (some utc) ↦ ok (some utc)
    ]
normalize_observed_at to_utc (some _) = err invalid_observation_time

abbrev pub is_time : String → String → ℕ → Collected → Bool
is_time scope fingerprint generation c =
    str_eq c.scope scope && str_eq c.fingerprint fingerprint && c.generation == generation

-- the later half of `_record_source_observation`: an older or equal time changes nothing
unfoldable pub collect : Option Collected → String → String → ℕ → String → Store → Bool × Store
collect none scope fingerprint generation at s = (
  true,
  record s {
    times =
        s.times
        ++ record {
          scope = scope;
          fingerprint = fingerprint;
          generation = generation;
          first_observed_at = at;
          last_observed_at = at;
        }
          ∷ [];
  },
)
collect (some prior) scope fingerprint generation at s =
    if text_le at prior.last_observed_at then (false, s) else (
      true,
      record s {
        times =
            update_where (is_time scope fingerprint generation)
              (λ c. record c { last_observed_at = at }) s.times;
      },
    )

-- the row that an observation must name: the current revision of its source
unfoldable pub current_row : Option Source → String → Result Source
current_row none fingerprint = err stale_observation
current_row (some r) fingerprint =
    if r.active && str_eq r.fingerprint fingerprint then ok r else err stale_observation

-- SourceObservationMixin._record_source_observation, the time already normalized
unfoldable pub record_observation : String → String → Option String → Store → Result (Bool × Store)
unfolding current_row collect
record_observation scope fingerprint none s = ok (false, s)
record_observation scope fingerprint (some at) s = do
  r ← current_row (source_of scope s.sources) fingerprint
  ok (
      collect (find (is_time scope fingerprint r.generation) s.times) scope fingerprint r.generation
        at s)

-- an item of a batch: scope, fingerprint, payload and `observedAt`
pub record Item : Type 0 where
  pub scope : String
  pub fingerprint : String
  pub payload : Value
  pub observed_at : Option Value

-- GraphStore.put_sources, its loop with the count of transitions
unfoldable pub put_sources :
    (String → Option (Option String)) → ℕ → List Item → ℕ → Store → Result (ℕ × Store)
unfolding put_source normalize_observed_at record_observation
put_sources to_utc time [] changed s = ok (changed, s)
put_sources to_utc time (i ∷ items) changed s = do
  (moved, s') ← put_source time i.scope i.fingerprint i.payload s
  at ← normalize_observed_at to_utc i.observed_at
  (_, s'') ← record_observation i.scope i.fingerprint at s'
  put_sources to_utc time items (changed + one_if moved) s''

-- SourceObservationMixin.record_source_observations, its loop with the count of advances
unfoldable pub record_source_observations :
    (String → Option (Option String)) → List Item → ℕ → Store → Result (ℕ × Store)
unfolding normalize_observed_at record_observation
record_source_observations to_utc [] advanced s = ok (advanced, s)
record_source_observations to_utc (i ∷ items) advanced s = do
  at ← normalize_observed_at to_utc i.observed_at
  (moved, s') ← record_observation i.scope i.fingerprint at s
  record_source_observations to_utc items (advanced + one_if moved) s'
