-- ===== src/Execution.antt =====
-- worker/src/parliament_worker/graphrag/engine.py and execution.py: the limits of a Factory, the
-- reservation of a wave of requests before any HTTP call, and the deferral of a failed call.
-- Parameters are `second`, the ticks of a second, `day_of`, the UTC day of a time, and those of the
-- job store. A job's metadata is an object, as every caller writes it.
pub mod Wave
pub mod Deferral
mod Fixtures
mod Samples
use parliament.Base.{
  ltb, leb, ◌==◌, if◌then◌else◌, ltb→lt, lt→ltb, leb→le, le→leb, Bool-cases, Option-cases,
  str_eq_refl, opt_eq, opt_eq_sound, &&-eq-true, ||-eq-false, &&-false, some-eq, ok-injective,
  str_eq_comm, length, take, select, any, find, is_nil, All, length-append, length-take-le,
  All-append, All-map, Error, Result, ok, err, ◌>>=◌, ◌>>◌, require, >>=-eq-ok, >>-eq-ok,
  require-eq-ok, ℕ, zero, suc, ◌+◌, ◌-◌, ◌*◌, ◌≤◌, ◌<◌, min, max, String, ◌≡◌, refl, sym, ap, ◌∙◌,
  subst, ◌≢◌, ◌↔◌, ◌⊎◌, inl, inr, Bool, true, false, ◌&&◌, ◌||◌, not, Option, none, some, List, [],
  ◌∷◌, ◌++◌, map, arith, str_eq, str_eq_iff, not_a_number, not_an_object, execution_limits,
  model_not_pinned,
}
use parliament.Value.{
  Value, Fields, Items, obj, arr, str, num, bool, field, end, cons, nil, pos, negsuc, null, get,
  codes, ticks,
}
use parliament.Value.Objects.{fields_of, is_true, is_text, at_key, object_or, iterated, put_field}
use parliament.Job.{Job, JobState, submitting, polling, deferred, truthy}
use parliament.Jobs.{Jobs}

-- a Factory, without its store and client; `poll_seconds` in ticks
pub record Factory : Type 0 where
  pub owner : String
  pub model_signature : String
  pub concurrency : ℕ
  pub daily_jobs : ℕ
  pub daily_tokens : ℕ
  pub queue_capacity : ℕ
  pub poll_seconds : ℕ

-- the guards of Factory.__init__; ten `tenth` ticks are a second
pub open_factory : ℕ → Factory → Result Factory
open_factory tenth f = do
  require
      (leb 1 f.concurrency
        && leb f.concurrency 64
        && leb f.daily_jobs 100000
        && (f.daily_tokens == 0 || leb 4096 f.daily_tokens)
        && leb 1 f.queue_capacity
        && leb f.queue_capacity 2000
        && leb tenth f.poll_seconds
        && leb f.poll_seconds (600 * tenth))
      execution_limits
  require
      (any (λ c. c == 64) (codes f.model_signature) && leb (length (codes f.model_signature)) 512)
      model_not_pinned
  ok f

-- `job["metadata"].get("completion_uncertain")`
unfoldable pub completion_uncertain : Job → Bool
unfolding get
completion_uncertain j = is_true (get "completion_uncertain" (fields_of j.metadata))

-- `job["state"] in {"submitting", "polling", "deferred"}`
unfoldable pub slot_state : JobState → Bool
slot_state submitting = true
slot_state polling = true
slot_state deferred = true
slot_state _ = false

-- _remote_slot_held
unfoldable pub remote_slot_held : Job → Bool
unfolding slot_state completion_uncertain truthy
remote_slot_held j = slot_state j.state && (truthy j.remote_id || completion_uncertain j)

-- the bytes of `text.encode()`
pub utf8_size : List ℕ → ℕ
utf8_size [] = 0
utf8_size (c ∷ cs) =
    (if ltb c 0x80 then 1 else if ltb c 0x800 then 2 else if ltb c 0x10000 then 3 else 4)
    + utf8_size cs

-- an integer as the difference of two counts, which add up place by place
pub number_of : Value → Result (ℕ × ℕ)
number_of (num (pos n)) = ok (n, 0)
number_of (num (negsuc n)) = ok (0, n + 1)
number_of (bool true) = ok (1, 0)
number_of (bool false) = ok (0, 0)
number_of _ = err not_a_number

abbrev pub integer : ℕ × ℕ → Value
integer (p, m) = if leb m p then num (pos (p - m)) else num (negsuc (m - p - 1))

-- `fields.get(key, default)` of a number
abbrev pub number_or : ℕ → Option Value → Result (ℕ × ℕ)
number_or default none = ok (default, 0)
number_or default (some v) = number_of v

abbrev pub text_or : Value → Result String
text_or (str s) = ok s
text_or _ = err not_an_object

-- the sum of `len(message["content"].encode())`
pub message_bytes : Items → Result ℕ
unfolding utf8_size get
message_bytes nil = ok 0
message_bytes (cons message rest) = do
  fs ← object_or message
  content ← at_key (get "content" fs)
  text ← text_or content
  n ← message_bytes rest
  ok (utf8_size (codes text) + n)

-- the tokens that a request reserves
pub request_tokens : Value → Result (ℕ × ℕ)
unfolding message_bytes number_of get
request_tokens request = do
  fs ← object_or request
  messages ← at_key (get "messages" fs)
  items ← iterated (some messages)
  n ← message_bytes items
  (p, m) ← number_or 768 (get "max_completion_tokens" fs)
  ok (n + p + 256, m)

-- `work["metadata"].get("submitted_day") == day`
unfoldable pub submitted_on : String → Job → Bool
unfolding get
submitted_on day j = is_text day (get "submitted_day" (fields_of j.metadata))

-- `sum(work["metadata"].get("reserved_tokens", 0) for work in submitted)`
pub reserved_sum : Jobs → Result (ℕ × ℕ)
unfolding number_of get
reserved_sum [] = ok (0, 0)
reserved_sum (j ∷ js) = do
  (p, m) ← number_or 0 (get "reserved_tokens" (fields_of j.metadata))
  (q, n) ← reserved_sum js
  ok (p + q, m + n)

-- `sum(…) + tokens > self.daily_tokens`, if there is such a limit
pub tokens_exceeded : ℕ → Jobs → ℕ × ℕ → Result Bool
unfolding reserved_sum
tokens_exceeded zero submitted tokens = ok false
tokens_exceeded (suc limit) submitted (p, m) = do
  (q, n) ← reserved_sum submitted
  ok (ltb (suc limit + m + n) (p + q))

abbrev pub reserved_metadata : Factory → String → ℕ × ℕ → Fields → Fields
reserved_metadata f day tokens metadata =
    put_field "expected_model" (str f.model_signature)
      (put_field "reserved_tokens" (integer tokens) (put_field "submitted_day" (str day) metadata))

-- Factory._reservation: the new metadata, unless a limit of the day is reached
pub reservation : Factory → String → Job → Jobs → Result (Option Fields)
unfolding request_tokens submitted_on tokens_exceeded put_field get
reservation f day j jobs =
    if is_true (get "submitted_day" (fields_of j.metadata))
    then ok (some (fields_of j.metadata))
    else do
      tokens ← request_tokens j.request
      let submitted = select (submitted_on day) jobs
      if not (f.daily_jobs == 0) && leb f.daily_jobs (length submitted) then ok none else do
        over ← tokens_exceeded f.daily_tokens submitted tokens
        if over then ok none else ok (some (reserved_metadata f day tokens (fields_of j.metadata)))
