-- ===== src/Questions/Samples.antt =====
-- A question whose failed job was retried, and the theorem at it.
use parliament.Base.{All, ok, String, ◌≡◌, refl, true, none, some, List, [], ◌∷◌, map}
use parliament.Value.{Fields, str, obj, end, field, null, get}
use parliament.Value.Objects.{hashable}
use parliament.Job.{Job, JobState, failed, planned, completed, obsolete}
use parliament.Jobs.{Jobs}
use parliament.Questions.{latest_question_jobs, terminal_question_result}
use parliament.Questions.Reading.{newest_attempt}
use parliament.Questions.Newest.{IsHashable, latest_question_jobs-eq-newest}

abbrev aim : String → Fields
aim artifact = field "artifact_key" (str artifact) (field "question_id" (str "q1") end)

abbrev work : String → String → String → JobState → Job
work id kind artifact state = record {
  id = id;
  kind = kind;
  key = id;
  request = null;
  context = aim artifact;
  idempotency_key = id;
  state = state;
  remote_id = none;
  next_poll = 0;
  attempts = 1;
  result = null;
  error = none;
  metadata = obj end;
  lease_owner = none;
  lease_until = 0;
  created_at = 1;
  updated_at = 1;
}

abbrev table : Jobs
table =
    work "a" "query_map" "m1" failed
    ∷ work "b" "query_reduce" "r1" completed
    ∷ work "c" "query_map" "m1" planned
    ∷ work "d" "extract" "m1" failed
    ∷ []

abbrev asked : List String
asked = "b" ∷ "a" ∷ "d" ∷ []

-- the retry stands for the failed job; the extraction is no question job
retried :
    latest_question_jobs table asked
    ≡ ok (
        some (work "b" "query_reduce" "r1" completed)
        ∷ some (work "c" "query_map" "m1" planned)
        ∷ none
        ∷ [])
unfolding latest_question_jobs
retried = refl

not_terminal :
    terminal_question_result (some (work "c" "query_map" "m1" planned) ∷ none ∷ []) true ≡ none
unfolding terminal_question_result
not_terminal = refl

outdated :
    terminal_question_result (some (work "c" "query_map" "m1" obsolete) ∷ none ∷ []) true
    ≡ some ("obsolete", "index_changed")
unfolding terminal_question_result
outdated = refl

table-IsHashable : All IsHashable table
unfolding hashable get
table-IsHashable = ((refl, refl), ((refl, refl), ((refl, refl), ((refl, refl), tt))))

latest_question_jobs-eq-newest_example :
    latest_question_jobs table asked ≡ ok (map (newest_attempt table) asked)
latest_question_jobs-eq-newest_example = latest_question_jobs-eq-newest table asked table-IsHashable
