-- ===== src/Status/Samples.antt =====
-- A history of attempts, and the theorems at it.
use parliament.Base.{find, String, ◌≡◌, refl, none, some, List, [], ◌∷◌}
use parliament.Job.{JobState, same_state, planned, failed, completed, polling}
use parliament.Status.{
  StatusRow, is_target, upsert, note_latest, latest_loop, summarize_latest,
  failed_keys_pending_recovery, counts_loop, add_failed, note_failed, failed_loop, unfinished,
  awaits_recovery, count_state, count_entry,
}
use parliament.Status.Newest.{newest, state_of, latest-eq-newest}

abbrev row : String → JobState → StatusRow
row key state = record { kind = "extract"; artifact_key = some key; state = state }

-- "a" failed and is polled again, "b" failed last, "c" succeeded at the second attempt
abbrev history : List StatusRow
history =
    row "a" failed
    ∷ row "b" planned
    ∷ row "c" failed
    ∷ row "a" polling
    ∷ row "b" failed
    ∷ row "c" completed
    ∷ []

code : Unit {0}
unfolding upsert note_latest latest_loop summarize_latest failed_keys_pending_recovery counts_loop
    add_failed note_failed failed_loop unfinished awaits_recovery count_state count_entry same_state
code = tt

unresolved_run : (summarize_latest history).1 ≡ 1
unfolding code
unresolved_run = refl

pending_keys_run : failed_keys_pending_recovery history ≡ 2
unfolding code
pending_keys_run = refl

latest-eq-newest_example :
    state_of (find (is_target "extract" "a") (latest_loop history []))
    ≡ newest "extract" "a" history none
latest-eq-newest_example = latest-eq-newest "extract" "a" history []
