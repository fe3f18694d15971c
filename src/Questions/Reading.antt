-- ===== src/Questions/Reading.antt =====
-- question_jobs.py, latest_question_jobs: the two dicts of one pass over the rows hold for each key
-- the last row that carries it.
use parliament.Base.{
  if◌then◌else◌, Bool-cases, str_eq_refl, &&-eq-true, any, find, String, ◌≡◌, refl, ap, subst, ◌⊎◌,
  inl, inr, Bool, true, false, ◌&&◌, Option, none, some, List, [], ◌∷◌, str_eq, str_eq_iff,
}
use parliament.Value.{get}
use parliament.Job.{Job}
use parliament.Jobs.{Jobs}
use parliament.Jobs.Keyed.{put_by_id}
use parliament.Questions.{
  Target, same_target, target_of, job_target, is_query, put_latest, get_latest, note_target,
  note_wanted, read_loop, found_or,
}

-- the last row that passes a test, else what was there before
unfoldable pub last_or : (Job → Bool) → Jobs → Option Job → Option Job
last_or p [] old = old
last_or p (j ∷ js) old = last_or p js (if p j then some j else old)

abbrev pub aims_at : Target → Option Target → Bool
aims_at t none = false
aims_at t (some u) = same_target u t

-- a question job for the target
unfoldable pub attempts : Target → Job → Bool
unfolding is_query target_of get
attempts t j = is_query j && aims_at t (job_target j)

-- a question job under the id
unfoldable pub is_recorded : String → Job → Bool
unfolding is_query
is_recorded id j = is_query j && str_eq j.id id

abbrev pub latest_attempt : Jobs → Option Target → Option Job
latest_attempt table none = none
latest_attempt table (some t) = last_or (attempts t) table none

-- the newest attempt at what a job was for, else the job
unfoldable pub newest_for : Jobs → Option Job → Option Job
unfolding last_or attempts target_of get
newest_for table none = none
newest_for table (some original) =
    some (found_or (latest_attempt table (job_target original)) original)

-- The job recorded under the id, replaced by the newest attempt at its target.
unfoldable pub newest_attempt : Jobs → String → Option Job
unfolding newest_for last_or is_recorded
newest_attempt table id = newest_for table (last_or (is_recorded id) table none)

same_target_sound : (a b : Target) → same_target a b ≡ true → a ≡ b
same_target_sound a b h =
    let (p, r) = &&-eq-true _ (str_eq a.artifact_key b.artifact_key) h in
    let (q, s) = &&-eq-true (str_eq a.question_id b.question_id) (str_eq a.kind b.kind) p in
    cc (
      (str_eq_iff a.question_id b.question_id).0 q,
      (str_eq_iff a.kind b.kind).0 s,
      (str_eq_iff a.artifact_key b.artifact_key).0 r,
    )

get_latest-put_latest :
    (t u : Target) (j : Job) (d : List (Target × Job))
    → get_latest u (put_latest t j d) ≡ (if same_target t u then some j else get_latest u d)
unfolding get_latest put_latest
get_latest-put_latest t u j [] = refl
get_latest-put_latest t u j ((v, k) ∷ d) = elim (Bool-cases (same_target v t)) [
  | inl hit ↦ rw (hit, same_target_sound v t hit) (overwritten (same_target t u))
  | inr miss ↦ rw (miss, get_latest-put_latest t u j d) (skipped (same_target v u) refl miss)
]
  where
    overwritten :
        (b : Bool)
        → (if b then some j else get_latest u d)
          ≡ (if b then some j else (if b then some k else get_latest u d))
    overwritten true = refl
    overwritten false = refl

    skipped :
        (b : Bool)
        → same_target v u ≡ b
        → same_target v t ≡ false
        → (if b then some k else (if same_target t u then some j else get_latest u d))
          ≡ (if same_target t u then some j else (if b then some k else get_latest u d))
    skipped false e miss = refl
    skipped true e miss = elim (Bool-cases (same_target t u)) [
      | inl other ↦ absurd (
          let m = rw (same_target_sound v u e, ← same_target_sound t u other) at miss in
          let r =
            rw (str_eq_refl t.question_id, str_eq_refl t.kind, str_eq_refl t.artifact_key) at m in
          cc)
      | inr apart ↦ rw apart refl
    ]

find-put_by_id :
    (id : String) (j : Job) (ks : Jobs)
    → find (λ k. str_eq k.id id) (put_by_id j ks)
      ≡ (if str_eq j.id id then some j else find (λ k. str_eq k.id id) ks)
unfolding put_by_id
find-put_by_id id j [] = refl
find-put_by_id id j (k ∷ ks) = elim (Bool-cases (str_eq k.id j.id)) [
  | inl hit ↦ rw hit (
      overwritten (str_eq j.id id) (str_eq k.id id)
        (ap (λ (s : String). str_eq s id) ((str_eq_iff k.id j.id).0 hit)))
  | inr miss ↦ rw (miss, find-put_by_id id j ks) (skipped (str_eq k.id id) refl miss)
]
  where
    overwritten :
        (b c : Bool)
        → c ≡ b
        → (if b then some j else find (λ k. str_eq k.id id) ks)
          ≡ (if b then some j else (if c then some k else find (λ k. str_eq k.id id) ks))
    overwritten true c e = refl
    overwritten false c e = rw e refl

    skipped :
        (b : Bool)
        → str_eq k.id id ≡ b
        → str_eq k.id j.id ≡ false
        → (if b then some k else (if str_eq j.id id then some j else find (λ k. str_eq k.id id) ks))
          ≡ (if str_eq j.id id
              then some j
              else (if b then some k else find (λ k. str_eq k.id id) ks))
    skipped false e miss = refl
    skipped true e miss = elim (Bool-cases (str_eq j.id id)) [
      | inl other ↦ absurd (
          let ke = (str_eq_iff k.id id).0 e in
          let je = (str_eq_iff j.id id).0 other in
          let m = rw (ke, je, str_eq_refl id) at miss in cc)
      | inr apart ↦ rw apart refl
    ]

get_latest-note_target :
    (t : Target) (o : Option Target) (j : Job) (d : List (Target × Job))
    → get_latest t (note_target o j d) ≡ (if aims_at t o then some j else get_latest t d)
unfolding note_target
get_latest-note_target t none j d = refl
get_latest-note_target t (some u) j d = get_latest-put_latest u t j d

-- what `latest` holds after the rows
pub read_loop-latest :
    (t : Target) (wanted : List String) (js : Jobs) (d : List (Target × Job)) (by_id : Jobs)
    → get_latest t (read_loop wanted js d by_id).0 ≡ last_or (attempts t) js (get_latest t d)
unfolding read_loop last_or attempts
read_loop-latest t wanted [] d by_id = refl
read_loop-latest t wanted (j ∷ js) d by_id = elim (Bool-cases (is_query j)) [
  | inl q ↦ rw (
    q,
    read_loop-latest t wanted js (note_target (job_target j) j d) (note_wanted wanted j by_id),
    get_latest-note_target t (job_target j) j d,
  )
  | inr other ↦ rw (other, read_loop-latest t wanted js d by_id)
]

find-note_wanted :
    (id : String) (wanted : List String) (j : Job) (by_id : Jobs)
    → any (λ w. str_eq id w) wanted ≡ true
    → find (λ k. str_eq k.id id) (note_wanted wanted j by_id)
      ≡ (if str_eq j.id id then some j else find (λ k. str_eq k.id id) by_id)
unfolding note_wanted
find-note_wanted id wanted j by_id w = elim (Bool-cases (any (str_eq j.id) wanted)) [
  | inl listed ↦ rw (listed, find-put_by_id id j by_id)
  | inr unlisted ↦ rw unlisted (other unlisted (Bool-cases (str_eq j.id id)))
]
  where
    other :
        any (str_eq j.id) wanted ≡ false
        → (str_eq j.id id ≡ true) ⊎ (str_eq j.id id ≡ false)
        → find (λ k. str_eq k.id id) by_id
          ≡ (if str_eq j.id id then some j else find (λ k. str_eq k.id id) by_id)
    other unlisted (inl own) = absurd (
        let u =
          subst (λ (s : String). any (str_eq s) wanted ≡ false) ((str_eq_iff j.id id).0 own)
            unlisted in
        cc)
    other unlisted (inr apart) = rw apart refl

-- what `by_id` holds after the rows, under a wanted id
pub read_loop-by_id :
    (id : String) (wanted : List String) (js : Jobs) (d : List (Target × Job)) (by_id : Jobs)
    → any (λ w. str_eq id w) wanted ≡ true
    → find (λ k. str_eq k.id id) (read_loop wanted js d by_id).1
      ≡ last_or (is_recorded id) js (find (λ k. str_eq k.id id) by_id)
unfolding read_loop last_or is_recorded
read_loop-by_id id wanted [] d by_id w = refl
read_loop-by_id id wanted (j ∷ js) d by_id w = elim (Bool-cases (is_query j)) [
  | inl q ↦ rw (
    q,
    read_loop-by_id id wanted js (note_target (job_target j) j d) (note_wanted wanted j by_id) w,
    find-note_wanted id wanted j by_id w,
  )
  | inr other ↦ rw (other, read_loop-by_id id wanted js d by_id w)
]
