-- ===== src/States.antt =====
-- worker/src/parliament_worker/graphrag/store_schema.py: the states of a job and the transitions
-- between them (STATES, RUNNABLE, TRANSITIONS).
use parliament.Base.{String, Bool, true, false, Option, none, some, if◌then◌else◌, str_eq}

pub data JobState : Type 0 where
  planned submitting polling completed failed obsolete deferred : JobState

-- `state not in STATES`: the state that a name names
unfoldable pub state_of_name : String → Option JobState
state_of_name s =
    if str_eq s "planned"
    then some planned
    else if str_eq s "submitting"
    then some submitting
    else if str_eq s "polling"
    then some polling
    else if str_eq s "completed"
    then some completed
    else if str_eq s "failed"
    then some failed
    else if str_eq s "obsolete"
    then some obsolete
    else if str_eq s "deferred"
    then some deferred
    else none

-- `state in RUNNABLE`
unfoldable pub runnable : JobState → Bool
runnable planned = true
runnable submitting = true
runnable polling = true
runnable deferred = true
runnable _ = false

unfoldable pub same_state : JobState → JobState → Bool
same_state planned planned = true
same_state submitting submitting = true
same_state polling polling = true
same_state completed completed = true
same_state failed failed = true
same_state obsolete obsolete = true
same_state deferred deferred = true
same_state _ _ = false

-- `new in TRANSITIONS[old]`
unfoldable pub transition : JobState → JobState → Bool
transition planned submitting = true
transition planned deferred = true
transition planned failed = true
transition planned obsolete = true
transition deferred planned = true
transition deferred submitting = true
transition deferred polling = true
transition deferred completed = true
transition deferred failed = true
transition deferred obsolete = true
transition submitting polling = true
transition submitting completed = true
transition submitting deferred = true
transition submitting failed = true
transition submitting obsolete = true
transition polling completed = true
transition polling deferred = true
transition polling failed = true
transition polling obsolete = true
transition completed obsolete = true
transition failed obsolete = true
transition _ _ = false
