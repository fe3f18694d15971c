-- ===== src/Sources.antt =====
-- worker/src/parliament_worker/graphrag/store.py (put_source, put_sources, retire_source, sources,
-- source_current, observations), source_observations.py and the source tables of store_schema.py.
-- Each function is the body of its transaction: an error leaves nothing committed. Parameters:
-- `time`, what `time.time()` returns, and `to_utc`, what `datetime.fromisoformat` makes of a text:
-- nothing, a time without a timezone, or the ISO text of the time in UTC.
pub mod Tables
pub mod Replay
pub mod Versions
pub mod Currency
pub mod Observing
pub mod Noting
pub mod Listing
pub mod Observations
mod Samples
use Prim.Native.Nat.{Ordering}
use Prim.Native.String.{compare as text_compare}
use parliament.Base.{
  ltb, leb, ◌==◌, if◌then◌else◌, ltb→lt, lt→ltb, leb→le, le→leb, Bool-cases, Option-cases,
  str_eq_refl, opt_eq, opt_eq_sound, &&-eq-true, ||-eq-false, str_eq_comm, length, take, select,
  any, find, is_nil, All, length-append, length-take-le, All-append, All-map, Error, Result, ok,
  err, ◌>>=◌, ◌>>◌, require, >>=-eq-ok, >>-eq-ok, require-eq-ok, ℕ, zero, suc, ◌+◌, ◌-◌, ◌*◌, ◌≤◌,
  ◌<◌, min, max, String, ◌≡◌, refl, sym, ap, ◌∙◌, subst, ◌≢◌, ◌↔◌, ◌⊎◌, inl, inr, Bool, true, false,
  ◌&&◌, ◌||◌, not, Option, none, some, List, [], ◌∷◌, ◌++◌, map, arith, str_eq, str_eq_iff,
  source_version_conflict, invalid_observation_time, stale_observation, naive_observation_time,
}
use parliament.Base.Tables.{update_where}
use parliament.Value.Objects.{text_lt}
use parliament.Value.{Value, null, str, codes, validate_label, same}

-- table `sources`, its primary key `scope`
pub record Source : Type 0 where
  pub scope : String
  pub fingerprint : String
  pub generation : ℕ
  pub payload : Value
  pub active : Bool

-- table `source_versions`, its primary key the scope and the fingerprint
pub record Version : Type 0 where
  pub scope : String
  pub fingerprint : String
  pub payload : Value

-- table `observations`, in the order of `sequence`
pub record Observation : Type 0 where
  pub scope : String
  pub fingerprint : String
  pub generation : ℕ
  pub active : Bool
  pub observed_at : ℕ

-- table `source_observation_times`, its primary key the first three fields
pub record Collected : Type 0 where
  pub scope : String
  pub fingerprint : String
  pub generation : ℕ
  pub first_observed_at : String
  pub last_observed_at : String

pub record Store : Type 0 where
  pub sources : List Source
  pub versions : List Version
  pub observations : List Observation
  pub times : List Collected

abbrev pub empty : Store
empty = record { sources = []; versions = []; observations = []; times = [] }

-- SELECT * FROM sources WHERE scope=?
abbrev pub source_of : String → List Source → Option Source
source_of scope rows = find (λ r. str_eq r.scope scope) rows

abbrev pub is_version : String → String → Version → Bool
is_version scope fingerprint v = str_eq v.scope scope && str_eq v.fingerprint fingerprint

-- SELECT payload FROM source_versions WHERE scope=? AND fingerprint=?
abbrev pub version_of : String → String → List Version → Option Version
version_of scope fingerprint rows = find (is_version scope fingerprint) rows

-- INSERT OR REPLACE INTO sources
pub replace_source : Source → List Source → List Source
replace_source row rows = select (λ r. not (str_eq r.scope row.scope)) rows ++ row ∷ []

-- INSERT OR IGNORE INTO source_versions
pub insert_version : Option Version → Version → List Version → List Version
insert_version (some old) v rows = rows
insert_version none v rows = rows ++ v ∷ []

-- `version and version["payload"] != encoded`, negated
pub version_agrees : Option Version → Value → Bool
version_agrees none payload = true
version_agrees (some v) payload = same v.payload payload

-- `prior and prior["active"] and prior["fingerprint"] == fingerprint`
pub already_current : Option Source → String → Bool
already_current none fingerprint = false
already_current (some r) fingerprint = r.active && str_eq r.fingerprint fingerprint

-- `prior["generation"] + 1 if prior else 1`
pub next_generation : Option Source → ℕ
next_generation none = 1
next_generation (some r) = r.generation + 1

-- the three writes of a transition to a new active revision
pub write_revision : ℕ → String → String → Value → ℕ → Store → Store
unfolding replace_source insert_version
write_revision time scope fingerprint payload generation s = record s {
  versions =
      insert_version (version_of scope fingerprint s.versions)
        (record { scope = scope; fingerprint = fingerprint; payload = payload }) s.versions;
  sources =
      replace_source
        (record {
          scope = scope;
          fingerprint = fingerprint;
          generation = generation;
          payload = payload;
          active = true;
        })
        s.sources;
  observations =
      s.observations
      ++ record {
        scope = scope;
        fingerprint = fingerprint;
        generation = generation;
        active = true;
        observed_at = time;
      }
        ∷ [];
}

-- GraphStore._put_source: was there a transition?
pub put_source : ℕ → String → String → Value → Store → Result (Bool × Store)
unfolding version_agrees already_current next_generation write_revision
put_source time scope fingerprint payload s = do
  validate_label scope
  validate_label fingerprint
  let prior = source_of scope s.sources
  require (version_agrees (version_of scope fingerprint s.versions) payload) source_version_conflict
  ok (
      if already_current prior fingerprint
      then (false, s)
      else (true, write_revision time scope fingerprint payload (next_generation prior) s))

-- the writes of a retirement
pub retire_found : ℕ → String → Option Source → Store → Bool × Store
retire_found time scope none s = (false, s)
retire_found time scope (some prior) s = if not prior.active then (false, s) else (
  true,
  record s {
    sources =
        update_where (λ r. str_eq r.scope scope)
          (λ r. record r { active = false; generation = prior.generation + 1 }) s.sources;
    observations =
        s.observations
        ++ record {
          scope = scope;
          fingerprint = prior.fingerprint;
          generation = prior.generation + 1;
          active = false;
          observed_at = time;
        }
          ∷ [];
  },
)

-- GraphStore.retire_source
pub retire_source : ℕ → String → Store → Bool × Store
unfolding retire_found
retire_source time scope s = retire_found time scope (source_of scope s.sources) s

unfoldable pub insert_source : Source → List Source → List Source
insert_source r [] = r ∷ []
insert_source r (q ∷ qs) = if text_lt q.scope r.scope then q ∷ insert_source r qs else r ∷ q ∷ qs

unfoldable pub order_by_scope : List Source → List Source
order_by_scope [] = []
order_by_scope (r ∷ rs) = insert_source r (order_by_scope rs)

-- GraphStore.sources: the rows, active ones only unless asked otherwise, ORDER BY scope
pub sources : Bool → Store → List Source
unfolding insert_source order_by_scope
sources active_only s =
    order_by_scope (if active_only then select (λ r. r.active) s.sources else s.sources)

pub row_current : Option Source → String → Option ℕ → Bool
row_current none fingerprint generation = false
row_current (some r) fingerprint none = r.active && str_eq r.fingerprint fingerprint
row_current (some r) fingerprint (some g) =
    r.active && str_eq r.fingerprint fingerprint && r.generation == g

-- GraphStore.source_current
pub source_current : String → String → Option ℕ → Store → Bool
unfolding row_current
source_current scope fingerprint generation s =
    row_current (source_of scope s.sources) fingerprint generation
