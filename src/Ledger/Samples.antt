-- ===== src/Ledger/Samples.antt =====
-- Runs of the review ledger on small inputs, and the theorems at these inputs.
use parliament.Base.{
  find, ok, err, ◌≤◌, String, ◌≡◌, refl, true, some, [], ◌∷◌, overrun_unreconciled,
  measured_cost_conflict,
}
use parliament.Ledger.{
  Config, Ledger, Now, amount, opened, open_ledger, require_amount, require_cost, lookup_cost,
  or_zero, spent, set_cost, approved_on, approve, available, record_cost, is_overrun, blocks,
  reservation, is_request, reserve_request, measured, exceeds, same_actual, settle_reserved,
  settle_row, settle_found, settle_transaction, settle_outcome, settle_request,
}
use parliament.Ledger.Reserving.{IsFunded}
use parliament.Ledger.Reaching.{
  Reach, approving, costing, reserving, settling, here, next, Reach-limits,
}
use parliament.Ledger.Settlement.{settle_request-again, overrun-refuses_reserve}

abbrev config : Config
config = record { monthly_budget = 100; daily_cap = 2 }

abbrev now : Now
now = record { day = "2026-01-02"; month = "2026-01" }

abbrev approved : Ledger
approved = record opened { approvals = record { identity = "a"; day = "2026-01-02" } ∷ [] }

abbrev charged : Ledger
charged = record approved { costs = ("2026-01", 10) ∷ [] }

abbrev held : Ledger
held = record charged { costs = ("2026-01", 40) ∷ []; requests = reservation "q" "2026-01" 30 ∷ [] }

-- the request measured at 35 where 30 were reserved
abbrev over_budget : Ledger
over_budget = record held {
  costs = ("2026-01", 45) ∷ [];
  requests = measured (record { units = 35; text = "35" }) true (reservation "q" "2026-01" 30) ∷ [];
}

code : Unit {0}
unfolding open_ledger require_amount require_cost lookup_cost or_zero spent set_cost approved_on
    approve available record_cost is_overrun blocks is_request reserve_request exceeds same_actual
    settle_reserved settle_row settle_found settle_transaction settle_outcome settle_request
code = tt

open_run : open_ledger (amount 100) 2 ≡ ok config
unfolding code
open_run = refl

approve_run : approve config "a" now opened ≡ ok approved
unfolding code
approve_run = refl

cost_run : record_cost config (amount 10) now approved ≡ ok charged
unfolding code
cost_run = refl

reserve_run : reserve_request config (amount 30) now "q" charged ≡ ok held
unfolding code
reserve_run = refl

settle_run : settle_transaction config "q" (amount 35) "35" held ≡ ok (over_budget, true)
unfolding code
settle_run = refl

held_row : find (is_request "q") held.requests ≡ some (reservation "q" "2026-01" 30)
unfolding code
held_row = refl

calls : Reach config opened over_budget
calls =
    next
      (next (next (next here (approving "a" now approve_run)) (costing (amount 10) now cost_run))
        (reserving (amount 30) now "q" reserve_run))
      (settling "q" (amount 35) "35" true settle_run)

Reach-limits_example :
    ((day : String) → approved_on day over_budget.approvals ≤ 3) × IsFunded config over_budget
Reach-limits_example = Reach-limits (amount 100) 2 config over_budget open_run calls

-- the same amount in another text is a conflict
settle_request-again_example :
    settle_request config "q" (amount 35) "35.0" over_budget
    ≡ (over_budget, err measured_cost_conflict)
settle_request-again_example =
    settle_request-again config "q" 35 35 "35" "35.0" held over_budget true settle_run

overrun-refuses_reserve_example :
    reserve_request config (amount 1) now "p" over_budget ≡ err overrun_unreconciled
overrun-refuses_reserve_example =
    overrun-refuses_reserve config "q" 35 "35" held over_budget (reservation "q" "2026-01" 30) 1 now
      "p" held_row settle_run refl
