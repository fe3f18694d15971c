-- ===== src/Questions/Newest.antt =====
-- question_jobs.py, latest_question_jobs: every identifier is resolved to the newest attempt.
use parliament.Base.{
  Bool-cases, str_eq_refl, some-eq, any, find, All, All-map, ok, String, ◌≡◌, refl, ◌∙◌, subst, inl,
  inr, Bool, true, false, ◌||◌, Option, none, some, List, [], ◌∷◌, map, str_eq,
}
use parliament.Value.{get}
use parliament.Value.Objects.{hashable}
use parliament.Job.{Job}
use parliament.Jobs.{Jobs}
use parliament.Questions.{
  Target, job_target, get_latest, read_loop, found_or, from_latest, newest_of, resolve_one,
  resolve_loop, latest_question_jobs,
}
use parliament.Questions.Reading.{
  last_or, attempts, is_recorded, newest_for, newest_attempt, latest_attempt, read_loop-latest,
  read_loop-by_id,
}

-- the question id and the artifact key of a job can be parts of a key
abbrev pub IsHashable : Job → Type 0
IsHashable j =
    (hashable (get "question_id" j.context) ≡ true)
    × (hashable (get "artifact_key" j.context) ≡ true)

last_or-All :
    (P : Job → Type 0) (p : Job → Bool) (js : Jobs) (old : Option Job) {j : Job}
    → All P js
    → ((k : Job) → old ≡ some k → P k)
    → last_or p js old ≡ some j
    → P j
unfolding last_or
last_or-All P p [] old a o h = o _ h
last_or-All P p (k ∷ ks) old a o h = elim (Bool-cases (p k)) [
  | inl hit ↦ last_or-All P p ks (some k) a.1 (λ l e. subst P (some-eq e) a.0) (rw hit at h)
  | inr miss ↦ last_or-All P p ks old a.1 o (rw miss at h)
]

newest_of-found :
    (j : Job) (d : List (Target × Job)) (table : Jobs)
    → IsHashable j
    → ((t : Target) → get_latest t d ≡ last_or (attempts t) table none)
    → newest_of j d ≡ ok (found_or (latest_attempt table (job_target j)) j)
unfolding newest_of
newest_of-found j d table h e = rw (h.0, h.1) (aimed (job_target j))
  where
    aimed :
        (o : Option Target)
        → ok (found_or (from_latest o d) j) ≡ ok (found_or (latest_attempt table o) j)
    aimed none = refl
    aimed (some t) = rw (e t) refl

resolve_one-found :
    (o : Option Job) (d : List (Target × Job)) (table : Jobs)
    → ((j : Job) → o ≡ some j → IsHashable j)
    → ((t : Target) → get_latest t d ≡ last_or (attempts t) table none)
    → resolve_one o d ≡ ok (newest_for table o)
unfolding resolve_one newest_for
resolve_one-found none d table h e = refl
resolve_one-found (some j) d table h e = rw (newest_of-found j d table (h j refl) e) refl

resolve_loop-found :
    (ids : List String) (d : List (Target × Job)) (by_id table : Jobs)
    → All IsHashable table
    → ((t : Target) → get_latest t d ≡ last_or (attempts t) table none)
    → All (λ id. find (λ j. str_eq j.id id) by_id ≡ last_or (is_recorded id) table none) ids
    → resolve_loop ids d by_id ≡ ok (map (newest_attempt table) ids)
unfolding resolve_loop newest_attempt
resolve_loop-found [] d by_id table a e f = refl
resolve_loop-found (id ∷ ids) d by_id table a e f = rw (
  f.0,
  resolve_one-found (last_or (is_recorded id) table none) d table
      (λ j h.
        last_or-All IsHashable (is_recorded id) table none a (λ k x. absurd (let y = x in cc)) h)
      e,
  resolve_loop-found ids d by_id table a e f.1,
)

wanted_all :
    (wanted ids : List String)
    → ((x : String) → any (λ w. str_eq x w) ids ≡ true → any (λ w. str_eq x w) wanted ≡ true)
    → All (λ id. any (λ w. str_eq id w) wanted ≡ true) ids
wanted_all wanted [] f = tt
wanted_all wanted (id ∷ ids) f = (
  f id (rw (str_eq_refl id) refl),
  wanted_all wanted ids (λ x h. f x (rw h (or_true (str_eq x id)))),
)
  where
    or_true : (b : Bool) → (b || true) ≡ true
    or_true true = refl
    or_true false = refl

-- Where no question id or artifact key of a row is a list or an object, latest_question_jobs
-- returns for each identifier in its order the last question job recorded under it, replaced by the
-- last question job for the same question, kind and artifact key, and nothing for an identifier
-- that no question job has.
pub latest_question_jobs-eq-newest :
    (table : Jobs) (ids : List String)
    → All IsHashable table
    → latest_question_jobs table ids ≡ ok (map (newest_attempt table) ids)
unfolding latest_question_jobs
latest_question_jobs-eq-newest table [] a = refl
latest_question_jobs-eq-newest table (id ∷ ids) a =
    resolve_loop-found (id ∷ ids) (read_loop (id ∷ ids) table [] []).0
      (read_loop (id ∷ ids) table [] []).1 table a
      (λ t. read_loop-latest t (id ∷ ids) table [] [] ∙ start t)
      (All-map _ _ (id ∷ ids) (λ x w. read_loop-by_id x (id ∷ ids) table [] [] w)
        (wanted_all (id ∷ ids) (id ∷ ids) (λ x h. h)))
  where
    start :
        (t : Target)
        → last_or (attempts t) table (get_latest t []) ≡ last_or (attempts t) table none
    start t = unfold get_latest in refl
