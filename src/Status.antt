-- ===== src/Status.antt =====
-- worker/src/parliament_worker/graphrag/status.py: counts of the newest attempts, and of the failed
-- derivations that await a successful retry. A Python dict is the list of its entries in the order of
-- insertion, a set of keys the list of its members.
pub mod Newest
pub mod Tracking
pub mod Unresolved
mod Samples
use parliament.Base.{
  ltb, leb, ◌==◌, if◌then◌else◌, ltb→lt, lt→ltb, leb→le, le→leb, Bool-cases, Option-cases,
  str_eq_refl, opt_eq, opt_eq_sound, &&-eq-true, ||-eq-false, &&-false, some-eq, ok-injective,
  str_eq_comm, length, take, select, any, find, is_nil, All, length-append, length-take-le,
  All-append, All-map, Error, Result, ok, err, ◌>>=◌, ◌>>◌, require, >>=-eq-ok, >>-eq-ok,
  require-eq-ok, ℕ, zero, suc, ◌+◌, ◌-◌, ◌*◌, ◌≤◌, ◌<◌, min, max, String, ◌≡◌, refl, sym, ap, ◌∙◌,
  subst, ◌≢◌, ◌↔◌, ◌⊎◌, inl, inr, Bool, true, false, ◌&&◌, ◌||◌, not, Option, none, some, List, [],
  ◌∷◌, ◌++◌, map, arith, str_eq, str_eq_iff, count_where,
}
use parliament.Job.{
  JobState, same_state, planned, submitting, polling, completed, failed, obsolete, deferred,
}

-- what both functions read of a job
pub record StatusRow : Type 0 where
  pub kind : String
  pub artifact_key : Option String
  pub state : JobState

-- an entry of `latest`
pub record Latest : Type 0 where
  pub kind : String
  pub key : String
  pub state : JobState

abbrev pub is_target : String → String → Latest → Bool
is_target kind key l = str_eq l.kind kind && str_eq l.key key

-- `latest[(kind, key)] = …`
pub upsert : String → String → JobState → List Latest → List Latest
upsert kind key state [] = record { kind = kind; key = key; state = state } ∷ []
upsert kind key state (l ∷ ls) =
    let rest = upsert kind key state ls in
    if is_target kind key l then record l { state = state } ∷ ls else l ∷ rest

-- `if isinstance(key, str): latest[(job["kind"], key)] = job`
pub note_latest : Option String → StatusRow → List Latest → List Latest
unfolding upsert
note_latest none r ls = ls
note_latest (some key) r ls = upsert r.kind key r.state ls

pub latest_loop : List StatusRow → List Latest → List Latest
unfolding note_latest
latest_loop [] ls = ls
latest_loop (r ∷ rows) ls = latest_loop rows (note_latest r.artifact_key r ls)

-- the counts of one kind, which start at zero for every state
abbrev pub StateCounts : Type 0
StateCounts = JobState → ℕ

pub count_state : JobState → StateCounts → StateCounts
count_state s counts = λ t. if same_state t s then counts t + 1 else counts t

-- `counts[kind][job["state"]] += 1`
pub count_entry : String → JobState → List (String × StateCounts) → List (String × StateCounts)
unfolding count_state
count_entry kind s [] = (kind, count_state s (λ t. 0)) ∷ []
count_entry kind s ((k, counts) ∷ rest) =
    let later = count_entry kind s rest in
    if str_eq k kind then (k, count_state s counts) ∷ rest else (k, counts) ∷ later

pub counts_loop : List Latest → List (String × StateCounts) → List (String × StateCounts)
unfolding count_entry
counts_loop [] counts = counts
counts_loop (l ∷ ls) counts = counts_loop ls (count_entry l.kind l.state counts)

-- `sum(job["state"] == "failed" for job in latest.values())`
abbrev pub is_failed : Latest → Bool
is_failed l = same_state l.state failed

-- summarize_latest
pub summarize_latest : List StatusRow → List (String × StateCounts) × ℕ
unfolding latest_loop counts_loop
summarize_latest rows =
    let latest = latest_loop rows [] in (counts_loop latest [], count_where is_failed latest)

abbrev pub same_logical : String → String → String × String → Bool
same_logical kind key (a, b) = str_eq a kind && str_eq b key

-- `failed.add(logical)`
pub add_failed : String → String → List (String × String) → List (String × String)
add_failed kind key keys =
    if any (same_logical kind key) keys then keys else keys ++ (kind, key) ∷ []

pub note_failed : Option String → StatusRow → List (String × String) → List (String × String)
unfolding add_failed
note_failed none r keys = keys
note_failed (some key) r keys =
    if same_state r.state failed then add_failed r.kind key keys else keys

pub failed_loop : List StatusRow → List (String × String) → List (String × String)
unfolding note_failed
failed_loop [] keys = keys
failed_loop (r ∷ rows) keys = failed_loop rows (note_failed r.artifact_key r keys)

-- `latest[key] not in {"completed", "obsolete"}`; every key of `failed` is one of `latest`
pub unfinished : Option Latest → Bool
unfinished none = false
unfinished (some l) = not (same_state l.state completed) && not (same_state l.state obsolete)

pub awaits_recovery : List Latest → String × String → Bool
unfolding unfinished
awaits_recovery latest (kind, key) = unfinished (find (is_target kind key) latest)

-- failed_keys_pending_recovery
pub failed_keys_pending_recovery : List StatusRow → ℕ
unfolding latest_loop failed_loop awaits_recovery
failed_keys_pending_recovery rows =
    count_where (awaits_recovery (latest_loop rows [])) (failed_loop rows [])
