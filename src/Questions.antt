-- ===== src/Questions.antt =====
-- worker/src/parliament_worker/graphrag/question_jobs.py: the newest attempt of each question job,
-- and what a question with such attempts has come to. The rows of the table are the decoded jobs in
-- the order of their rowid; a Python dict is the list of its entries.
pub mod Reading
pub mod Newest
mod Samples
use parliament.Base.{
  ltb, leb, ◌==◌, if◌then◌else◌, ltb→lt, lt→ltb, leb→le, le→leb, Bool-cases, Option-cases,
  str_eq_refl, opt_eq, opt_eq_sound, &&-eq-true, ||-eq-false, &&-false, some-eq, ok-injective,
  str_eq_comm, length, take, select, any, find, is_nil, All, length-append, length-take-le,
  All-append, All-map, Error, Result, ok, err, ◌>>=◌, ◌>>◌, require, >>=-eq-ok, >>-eq-ok,
  require-eq-ok, ℕ, zero, suc, ◌+◌, ◌-◌, ◌*◌, ◌≤◌, ◌<◌, min, max, String, ◌≡◌, refl, sym, ap, ◌∙◌,
  subst, ◌≢◌, ◌↔◌, ◌⊎◌, inl, inr, Bool, true, false, ◌&&◌, ◌||◌, not, Option, none, some, List, [],
  ◌∷◌, ◌++◌, map, arith, str_eq, str_eq_iff, unhashable_key,
}
use parliament.Value.{Value, str, obj, arr, Fields, get}
use parliament.Value.Objects.{hashable}
use parliament.Job.{JobState, Job, same_state, failed, obsolete}
use parliament.Jobs.{Jobs}
use parliament.Jobs.Keyed.{put_by_id}

-- WHERE kind IN ('query_local','query_map','query_reduce')
unfoldable pub is_query : Job → Bool
is_query j =
    str_eq j.kind "query_local" || str_eq j.kind "query_map" || str_eq j.kind "query_reduce"

-- the key of `latest`: question id, kind and artifact key
pub record Target : Type 0 where
  pub question_id : String
  pub kind : String
  pub artifact_key : String

abbrev pub same_target : Target → Target → Bool
same_target a b =
    str_eq a.question_id b.question_id
    && str_eq a.kind b.kind
    && str_eq a.artifact_key b.artifact_key

-- `isinstance(question_id, str) and isinstance(artifact_key, str)`
unfoldable pub target_of : String → Option Value → Option Value → Option Target
target_of kind (some (str q)) (some (str a)) =
    some (record { question_id = q; kind = kind; artifact_key = a })
target_of kind _ _ = none

abbrev pub job_target : Job → Option Target
job_target j = target_of j.kind (get "question_id" j.context) (get "artifact_key" j.context)

-- `latest[…] = job`
pub put_latest : Target → Job → List (Target × Job) → List (Target × Job)
put_latest t j [] = (t, j) ∷ []
put_latest t j ((u, k) ∷ rest) =
    if same_target u t then (u, j) ∷ rest else (u, k) ∷ put_latest t j rest

pub get_latest : Target → List (Target × Job) → Option Job
get_latest t [] = none
get_latest t ((u, k) ∷ rest) = if same_target u t then some k else get_latest t rest

pub note_target : Option Target → Job → List (Target × Job) → List (Target × Job)
unfolding put_latest
note_target none j latest = latest
note_target (some t) j latest = put_latest t j latest

pub note_wanted : List String → Job → Jobs → Jobs
unfolding put_by_id
note_wanted wanted j by_id = if any (str_eq j.id) wanted then put_by_id j by_id else by_id

-- the loop over the rows of the statement
pub read_loop : List String → Jobs → List (Target × Job) → Jobs → List (Target × Job) × Jobs
unfolding is_query target_of get note_target note_wanted
read_loop wanted [] latest by_id = (latest, by_id)
read_loop wanted (j ∷ js) latest by_id =
    if is_query j
    then read_loop wanted js (note_target (job_target j) j latest) (note_wanted wanted j by_id)
    else read_loop wanted js latest by_id

abbrev pub found_or : Option Job → Job → Job
found_or (some newest) original = newest
found_or none original = original

abbrev pub from_latest : Option Target → List (Target × Job) → Option Job
from_latest none latest = none
from_latest (some t) latest = get_latest t latest

-- `latest.get((…), original)`: only keys of three texts are in the dict
pub newest_of : Job → List (Target × Job) → Result Job
unfolding hashable target_of get get_latest
newest_of original latest = do
  require (hashable (get "question_id" original.context)) unhashable_key
  require (hashable (get "artifact_key" original.context)) unhashable_key
  ok (found_or (from_latest (job_target original) latest) original)

pub resolve_one : Option Job → List (Target × Job) → Result (Option Job)
unfolding newest_of
resolve_one none latest = ok none
resolve_one (some original) latest = do job ← newest_of original latest; ok (some job)

pub resolve_loop : List String → List (Target × Job) → Jobs → Result (List (Option Job))
unfolding resolve_one
resolve_loop [] latest by_id = ok []
resolve_loop (id ∷ ids) latest by_id = do
  job ← resolve_one (find (λ j. str_eq j.id id) by_id) latest
  rest ← resolve_loop ids latest by_id
  ok (job ∷ rest)

-- latest_question_jobs
pub latest_question_jobs : Jobs → List String → Result (List (Option Job))
unfolding read_loop resolve_loop
latest_question_jobs table [] = ok []
latest_question_jobs table (id ∷ ids) =
    let (latest, by_id) = read_loop (id ∷ ids) table [] [] in resolve_loop (id ∷ ids) latest by_id

-- `state in states`
abbrev pub has_state : JobState → List (Option Job) → Bool
has_state s [] = false
has_state s (none ∷ jobs) = has_state s jobs
has_state s (some j ∷ jobs) = same_state j.state s || has_state s jobs

-- terminal_question_result: the state and the error
pub terminal_question_result : List (Option Job) → Bool → Option (String × String)
unfolding same_state
terminal_question_result jobs outdated_index =
    if has_state failed jobs
    then some ("failed", "inference_or_source_validation_failed")
    else if has_state obsolete jobs
    then some ("obsolete", if outdated_index then "index_changed" else "job_obsolete")
    else none
