-- ===== src/Job/Reaching.antt =====
-- store_schema.py, TRANSITIONS: the states that a job can still reach.
use parliament.Base.{
  ◌≡◌, refl, String, Bool, true, false, ◌||◌, Option, none, some, inl, inr, arith, ok, Bool-cases,
  subst,
}
use parliament.Job.{
  JobState, planned, submitting, polling, completed, failed, obsolete, deferred, next_state,
  enter_state, frozen, transition, same_state, state_of_name,
}

-- The states that a job can be in later: a completed, failed or obsolete job never runs again.
unfoldable pub reaches : JobState → JobState → Bool
reaches completed completed = true
reaches completed obsolete = true
reaches completed _ = false
reaches failed failed = true
reaches failed obsolete = true
reaches failed _ = false
reaches obsolete obsolete = true
reaches obsolete _ = false
reaches _ _ = true

pub reaches_refl : (s : JobState) → reaches s s ≡ true
unfolding reaches
reaches_refl planned = refl
reaches_refl _ = refl

pub reaches_trans :
    (s t u : JobState) → reaches s t ≡ true → reaches t u ≡ true → reaches s u ≡ true
unfolding reaches
reaches_trans s t u h k = ground arith

pub frozen-reaches : (s t : JobState) → reaches s t ≡ true → frozen s ≡ true → frozen t ≡ true
unfolding reaches frozen
frozen-reaches s t h k = ground arith

stepped-reaches : (s t : JobState) → (same_state t s || transition s t) ≡ true → reaches s t ≡ true
unfolding reaches same_state transition
stepped-reaches planned t h = ground arith
stepped-reaches submitting t h = ground arith
stepped-reaches polling t h = ground arith
stepped-reaches completed t h = ground arith
stepped-reaches failed t h = ground arith
stepped-reaches obsolete t h = ground arith
stepped-reaches deferred t h = ground arith

enter_state-reaches :
    (s : JobState) (o : Option JobState) (t : JobState)
    → enter_state s o ≡ ok t
    → reaches s t ≡ true
unfolding enter_state
enter_state-reaches s none t h = cc
enter_state-reaches s (some new) t h = elim (Bool-cases (same_state new s || transition s new)) [
  | inl moved ↦
      let e : new ≡ t = ground arith in
      subst (λ u. reaches s u ≡ true) e (stepped-reaches s new moved)
  | inr stays ↦ cc
]

pub next_state-reaches :
    (s : JobState) (name : Option String) (t : JobState)
    → next_state s name ≡ ok t
    → reaches s t ≡ true
unfolding next_state
next_state-reaches s none t h = enter_state-reaches s (some s) t h
next_state-reaches s (some name) t h = enter_state-reaches s (state_of_name name) t h
