-- ===== src/Job.antt =====
-- worker/src/parliament_worker/graphrag/store_schema.py: the life of one durable job, what an
-- update may change (`updated_job`), and the checks on a lease (`require_lease`, `_due`).
-- Times are ticks from the epoch; attempt counts are natural numbers.
pub mod Priority
pub mod Update
pub mod Reaching
pub mod Sealing
pub mod Succession
pub use parliament.States.{
  JobState, planned, submitting, polling, completed, failed, obsolete, deferred,
}
unfoldable pub use parliament.States.{state_of_name, runnable, same_state, transition}
use parliament.Base.{
  ℕ, ◌≡◌, String, Bool, true, false, ◌&&◌, ◌||◌, not, Option, none, some, List, [], ◌∷◌, ltb, leb,
  min, ◌==◌, if◌then◌else◌, str_eq, opt_eq, is_nil, Result, ok, err, require, ◌>>=◌, ◌>>◌,
  immutable_field, invalid_transition, completed_immutable, remote_identity_immutable,
  invalid_attempt_count, invalid_clock, polling_without_remote, completion_without_result,
  credentials_persisted, stale_lease,
}
use parliament.Value.{
  Value, null, bool, num, Fields, pos, equals, get, is_str, Reading, ticks, has_credentials,
}

pub record Job : Type 0 where
  pub id : String
  pub kind : String
  pub key : String
  pub request : Value
  pub context : Fields
  pub idempotency_key : String
  pub state : JobState
  pub remote_id : Option String
  pub next_poll : ℕ
  pub attempts : ℕ
  pub result : Value
  pub error : Option String
  pub metadata : Value
  pub lease_owner : Option String
  pub lease_until : ℕ
  pub created_at : ℕ
  pub updated_at : ℕ

-- The keyword arguments of an update: a value for each mutable field that is given, and the names
-- that are none of UPDATE_FIELDS.
pub record Changes : Type 0 where
  pub state : Option String
  pub remote_id : Option (Option String)
  pub next_poll : Option Reading
  pub attempts : Option Value
  pub result : Option Value
  pub error : Option (Option String)
  pub metadata : Option Value
  pub unknown : List String

abbrev pub no_changes : Changes
no_changes = record {
  state = none;
  remote_id = none;
  next_poll = none;
  attempts = none;
  result = none;
  error = none;
  metadata = none;
  unknown = [];
}

-- `fields.get(name, job[name])`
abbrev pub given {ℓ} : {A : Type ℓ} → Option A → A → A
given none old = old
given (some new) old = new

-- the truth of a string or None
unfoldable pub truthy : Option String → Bool
truthy none = false
truthy (some s) = not (str_eq s "")

abbrev pub is_null : Value → Bool
is_null null = true
is_null _ = false

abbrev pub reading_or : Option Reading → ℕ → ℕ
reading_or (some (ticks n)) old = n
reading_or _ old = old

-- an attempt count that `isinstance(x, int) and not isinstance(x, bool)` admits
abbrev pub count_or : Option Value → ℕ → ℕ
count_or (some (num (pos n))) old = n
count_or _ old = old

-- `state not in STATES or (state != old and state not in TRANSITIONS[old])` raises
pub enter_state : JobState → Option JobState → Result JobState
unfolding same_state transition
enter_state old none = err invalid_transition
enter_state old (some new) =
    if same_state new old || transition old new then ok new else err invalid_transition

pub next_state : JobState → Option String → Result JobState
unfolding enter_state
next_state old none = enter_state old (some old)
next_state old (some name) = enter_state old (state_of_name name)

-- `value != job[key]` for each field that is given, negated; `True == 1` in Python
abbrev pub keeps_count : Option Value → ℕ → Bool
keeps_count none n = true
keeps_count (some (num (pos m))) n = m == n
keeps_count (some (bool true)) n = n == 1
keeps_count (some (bool false)) n = n == 0
keeps_count (some _) n = false

abbrev pub keeps_time : Option Reading → ℕ → Bool
keeps_time none n = true
keeps_time (some (ticks m)) n = m == n
keeps_time (some _) n = false

abbrev pub keeps_text : Option (Option String) → Option String → Bool
keeps_text none old = true
keeps_text (some new) old = opt_eq new old

abbrev pub keeps_value : Option Value → Value → Bool
keeps_value none old = true
keeps_value (some new) old = equals new old

pub unchanged : Job → Changes → Bool
unchanged j c =
    keeps_text c.remote_id j.remote_id
    && keeps_time c.next_poll j.next_poll
    && keeps_count c.attempts j.attempts
    && keeps_value c.result j.result
    && keeps_text c.error j.error
    && keeps_value c.metadata j.metadata

-- `job["state"] in {"completed", "obsolete"}`
unfoldable pub frozen : JobState → Bool
frozen completed = true
frozen obsolete = true
frozen _ = false

pub remote_id_kept : Option String → Option (Option String) → Bool
remote_id_kept none c = true
remote_id_kept (some r) c = keeps_text c (some r)

pub attempts_valid : Option Value → ℕ → Bool
attempts_valid none n = true
attempts_valid (some (num (pos m))) n = leb n m
attempts_valid (some _) n = false

pub next_poll_valid : Option Reading → Bool
next_poll_valid none = true
next_poll_valid (some (ticks n)) = true
next_poll_valid (some _) = false

pub remote_ready : JobState → Option String → Bool
remote_ready polling remote = truthy remote
remote_ready _ remote = true

pub result_ready : JobState → Value → Bool
result_ready completed r = not (is_null r)
result_ready _ r = true

abbrev pub value_clear : Option Value → Bool
value_clear none = true
value_clear (some v) = not (has_credentials v)

-- reject_credentials(fields), of which only `attempts`, `result` and `metadata` can hold an object
pub changes_clear : Changes → Bool
changes_clear c = value_clear c.attempts && value_clear c.result && value_clear c.metadata

-- `{**job, **fields, "updated_at": now}`
pub apply_changes : Job → Changes → JobState → ℕ → Job
apply_changes j c s now = record j {
  state = s;
  remote_id = given c.remote_id j.remote_id;
  next_poll = reading_or c.next_poll j.next_poll;
  attempts = count_or c.attempts j.attempts;
  result = given c.result j.result;
  error = given c.error j.error;
  metadata = given c.metadata j.metadata;
  updated_at = now;
}

unfoldable pub updated_job : Job → Changes → ℕ → Result Job
unfolding next_state unchanged frozen remote_id_kept attempts_valid next_poll_valid remote_ready
    result_ready changes_clear apply_changes truthy
updated_job j c now = do
  require (is_nil c.unknown) immutable_field
  s ← next_state j.state c.state
  require (not (frozen j.state) || unchanged j c) completed_immutable
  require (remote_id_kept j.remote_id c.remote_id) remote_identity_immutable
  require (attempts_valid c.attempts j.attempts) invalid_attempt_count
  require (next_poll_valid c.next_poll) invalid_clock
  require (remote_ready s (given c.remote_id j.remote_id)) polling_without_remote
  require (result_ready s (given c.result j.result)) completion_without_result
  require (changes_clear c) credentials_persisted
  ok (apply_changes j c s now)

-- `job["lease_owner"] != owner or job["lease_until"] <= now`, negated
unfoldable pub holds_lease : String → ℕ → Job → Bool
holds_lease owner now j = opt_eq j.lease_owner (some owner) && ltb now j.lease_until

unfoldable pub require_lease : Option Job → String → ℕ → Result Job
unfolding holds_lease
require_lease none owner now = err stale_lease
require_lease (some j) owner now = if holds_lease owner now j then ok j else err stale_lease

-- `job["lease_owner"] and job["lease_until"] > now`
unfoldable pub leased : ℕ → Job → Bool
unfolding truthy
leased now j = truthy j.lease_owner && ltb now j.lease_until

-- GraphStore._due
unfoldable pub due : Job → ℕ → Bool
unfolding runnable leased truthy
due j now =
    runnable j.state && leb j.next_poll now && (not (truthy j.lease_owner) || leb j.lease_until now)

kind_priority : String → ℕ
kind_priority kind =
    if str_eq kind "query_reduce"
    then 0
    else if str_eq kind "query_local"
    then 0
    else if str_eq kind "query_map"
    then 1
    else if str_eq kind "extract"
    then 2
    else 3

recovery_rank : Job → ℕ
unfolding truthy same_state
recovery_rank j = if truthy j.remote_id then 0 else if same_state j.state submitting then 1 else 2

repeat_priority : Job → ℕ
unfolding kind_priority
repeat_priority j =
    if is_str (get "retry_of" j.context) || is_str (get "repair_version" j.context)
    then min (kind_priority j.kind) (if str_eq j.kind "query_map" then 0 else 1)
    else kind_priority j.kind

-- the sort key: recovery rank, priority, attempts
unfoldable pub job_priority : Job → ℕ × ℕ × ℕ
unfolding recovery_rank repeat_priority
job_priority j = (recovery_rank j, repeat_priority j, j.attempts)

-- the order of such keys, as Python compares tuples
unfoldable pub key_lt : ℕ × ℕ × ℕ → ℕ × ℕ × ℕ → Bool
key_lt (a, b, c) (x, y, z) = ltb a x || (a == x && (ltb b y || (b == y && ltb c z)))
