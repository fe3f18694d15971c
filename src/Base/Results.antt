-- ===== src/Base/Results.antt =====
-- Python's `raise ValueError(message)`: a result or the message's name.
use mathlib.Core.Path.{◌≡◌, refl}
use mathlib.Core.Bool.{Bool, true, false}

-- One constructor for each message that the modelled code raises.
pub data Error : Type 0 where
  invalid_identifier invalid_clock credentials_persisted : Error
  immutable_field invalid_transition completed_immutable remote_identity_immutable : Error
  invalid_attempt_count polling_without_remote completion_without_result : Error
  stale_lease unknown_job active_lease invalid_job_limit invalid_job_lease : Error
  invalid_lease_renewal job_replay_conflict invalid_job_state job_too_large : Error
  source_version_conflict artifact_version_conflict : Error
  stale_observation invalid_observation_time naive_observation_time : Error
  snapshot_too_large : Error
  invalid_budget daily_cap_exceeded invalid_cost budget_exceeded overrun_unreconciled : Error
  reservation_missing measured_cost_conflict measured_cost_overrun : Error
  invalid_batch_size : Error
  spool_conflict invalid_mail_identity invalid_mail_batch nested_batch request_id_taken
        costs_row_missing :
      Error
  invalid_measured_cost request_too_large invalid_selection_output : Error
  invalid_selected_ids malformed_claim lacks_source_coverage invalid_pinned_claim : Error
  invalid_packed_job packed_job_disagrees unsupported_packed_job not_a_job : Error
  invalid_recovery_limit unhashable_key not_an_object missing_key store_busy : Error
  execution_limits model_not_pinned unrecognized_remote_state : Error
  remote_rejected not_a_number : Error

pub data Result {ℓ} (Value : Type ℓ) : Type ℓ where
  err : Error → Result Value
  ok : Value → Result Value

-- `if not test: raise ValueError(e)`
abbrev pub require : Bool → Error → Result (Unit {0})
require false problem = err problem
require true problem = ok tt

infixl 5 ◌>>=◌ ◌>>◌
abbrev pub ◌>>◌ {κ} : {Later : Type κ} → Result (Unit {0}) → Result Later → Result Later
err problem >> later = err problem
ok _ >> later = later

abbrev pub ◌>>=◌ {ℓ κ} :
    {Value : Type ℓ} {Later : Type κ} → Result Value → (Value → Result Later) → Result Later
err problem >>= later = err problem
ok value >>= later = later value

-- A chain that returns: its first call returned a value, and the rest returned from there.
pub >>=-eq-ok {ℓ κ} :
    {Value : Type ℓ} {Later : Type κ} (first : Result Value) (rest : Value → Result Later)
    {answer : Later}
    → (first >>= rest) ≡ ok answer
    → (value : Value) × (first ≡ ok value) × (rest value ≡ ok answer)
>>=-eq-ok (err problem) rest returned = cc
>>=-eq-ok (ok value) rest returned = (value, refl, returned)

pub >>-eq-ok {ℓ} :
    {B : Type ℓ} (m : Result (Unit {0})) (k : Result B) {b : B}
    → (m >> k) ≡ ok b
    → (m ≡ ok tt) × (k ≡ ok b)
>>-eq-ok (ok tt) k h = (refl, h)
>>-eq-ok (err e) k h = cc

pub require-eq-ok : (b : Bool) (e : Error) → require b e ≡ ok tt → b ≡ true
require-eq-ok true e h = refl
require-eq-ok false e h = cc

pub ok-injective {ℓ} : {A : Type ℓ} {a b : A} → ok a ≡ ok b → a ≡ b
ok-injective h = cc
