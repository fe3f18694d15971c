-- ===== src/Ledger.antt =====
-- worker/src/parliament_worker/review.py, class ReviewLedger: the tables `approvals`, `costs` and
-- `provider_requests` and the transactions on them. A transaction that raises is rolled back, so it
-- is an error without a new state; settle_request commits before it raises for an overrun. Amounts
-- are counts of one smallest unit; a measured cost has its text `str(actual)` too, which is what a
-- second settlement compares. A time is its Seoul day and month; the request id, a uuid4, is an
-- argument.
pub mod Budget
pub mod Approvals
pub mod Reserving
pub mod Settling
pub mod Reaching
pub mod Settlement
mod Samples
use parliament.Base.{
  ltb, leb, ◌==◌, if◌then◌else◌, ltb→lt, lt→ltb, leb→le, le→leb, Bool-cases, Option-cases,
  str_eq_refl, opt_eq, opt_eq_sound, &&-eq-true, ||-eq-false, &&-false, some-eq, ok-injective,
  str_eq_comm, length, take, select, any, find, is_nil, All, length-append, length-take-le,
  All-append, All-map, Error, Result, ok, err, ◌>>=◌, ◌>>◌, require, >>=-eq-ok, >>-eq-ok,
  require-eq-ok, ℕ, zero, suc, ◌+◌, ◌-◌, ◌*◌, ◌≤◌, ◌<◌, min, max, String, ◌≡◌, refl, sym, ap, ◌∙◌,
  subst, ◌≢◌, ◌↔◌, ◌⊎◌, inl, inr, Bool, true, false, ◌&&◌, ◌||◌, not, Option, none, some, List, [],
  ◌∷◌, ◌++◌, map, arith, str_eq, str_eq_iff, invalid_cost, overrun_unreconciled,
  measured_cost_conflict, invalid_budget, reservation_missing, measured_cost_overrun,
  costs_row_missing, budget_exceeded, daily_cap_exceeded, request_id_taken, invalid_measured_cost,
}
use parliament.Base.Tables.{update_where}

-- a Decimal handed in
pub data Amount : Type 0 where
  amount : ℕ → Amount
  negative : ℕ → Amount
  not_finite : Amount

-- a measured Decimal and its text: 1.0 and 1.00 are one amount of two texts
pub record Cost : Type 0 where
  pub units : ℕ
  pub text : String

pub data RequestStatus : Type 0 where
  reserved settled overrun : RequestStatus

pub record Config : Type 0 where
  pub monthly_budget : ℕ
  pub daily_cap : ℕ

-- `now.astimezone(SEOUL)`, as a date and as year and month
pub record Now : Type 0 where
  pub day : String
  pub month : String

pub record Approval : Type 0 where
  pub identity : String
  pub day : String

pub record Request : Type 0 where
  pub request_id : String
  pub month : String
  pub reserved_amount : ℕ
  pub actual : Option Cost
  pub status : RequestStatus

pub record Ledger : Type 0 where
  pub approvals : List Approval
  pub costs : List (String × ℕ)
  pub requests : List Request

abbrev pub opened : Ledger
opened = record { approvals = []; costs = []; requests = [] }

-- ReviewLedger.__init__, its guard
pub open_ledger : Amount → ℕ → Result Config
open_ledger (amount budget) cap = do
  require (leb 1 cap && leb cap 3) invalid_budget
  ok (record { monthly_budget = budget; daily_cap = cap })
open_ledger _ cap = err invalid_budget

-- `if not amount.is_finite() or amount < 0: raise ValueError(…)`
pub require_amount : Error → Amount → Result ℕ
require_amount e (amount n) = ok n
require_amount e _ = err e

-- SELECT amount FROM costs WHERE month=?
pub lookup_cost : String → List (String × ℕ) → Option ℕ
lookup_cost month [] = none
lookup_cost month ((m, n) ∷ costs) = if str_eq m month then some n else lookup_cost month costs

-- `Decimal(row[0]) if row else Decimal("0")`
pub or_zero : Option ℕ → ℕ
or_zero none = 0
or_zero (some n) = n

pub spent : String → List (String × ℕ) → ℕ
unfolding lookup_cost or_zero
spent month costs = or_zero (lookup_cost month costs)

-- INSERT INTO costs … ON CONFLICT(month) DO UPDATE SET amount=excluded.amount
pub set_cost : String → ℕ → List (String × ℕ) → List (String × ℕ)
set_cost month n [] = (month, n) ∷ []
set_cost month n ((m, k) ∷ costs) =
    if str_eq m month then (m, n) ∷ costs else (m, k) ∷ set_cost month n costs

-- SELECT COUNT(*) FROM approvals WHERE day=?
pub approved_on : String → List Approval → ℕ
approved_on day rows = length (select (λ r. str_eq r.day day) rows)

-- ReviewLedger.approve
pub approve : Config → String → Now → Ledger → Result Ledger
unfolding approved_on
approve c identity now l =
    if any (λ r. str_eq r.identity identity) l.approvals
    then ok l
    else require (ltb (approved_on now.day l.approvals) c.daily_cap) daily_cap_exceeded
      >> ok (record l {
        approvals = l.approvals ++ record { identity = identity; day = now.day } ∷ [];
      })

-- ReviewLedger.available
pub available : Config → Now → Ledger → ℕ
unfolding spent
available c now l = c.monthly_budget - spent now.month l.costs

-- ReviewLedger.record_cost
pub record_cost : Config → Amount → Now → Ledger → Result Ledger
unfolding require_amount available spent set_cost
record_cost c a now l = do
  n ← require_amount invalid_cost a
  require (leb n (available c now l)) budget_exceeded
  ok (record l { costs = set_cost now.month (spent now.month l.costs + n) l.costs })

pub is_overrun : RequestStatus → Bool
is_overrun overrun = true
is_overrun _ = false

-- WHERE month=? AND status='overrun'
pub blocks : String → Request → Bool
unfolding is_overrun
blocks month r = str_eq r.month month && is_overrun r.status

abbrev pub reservation : String → String → ℕ → Request
reservation request_id month n = record {
  request_id = request_id;
  month = month;
  reserved_amount = n;
  actual = none;
  status = reserved;
}

-- WHERE request_id=?
pub is_request : String → Request → Bool
is_request request_id r = str_eq r.request_id request_id

-- ReviewLedger.reserve_request
pub reserve_request : Config → Amount → Now → String → Ledger → Result Ledger
unfolding require_amount blocks spent set_cost is_request
reserve_request c a now request_id l = do
  n ← require_amount invalid_cost a
  require (not (any (blocks now.month) l.requests)) overrun_unreconciled
  require (leb (spent now.month l.costs + n) c.monthly_budget) budget_exceeded
  require (not (any (is_request request_id) l.requests)) request_id_taken
  ok (record l {
    costs = set_cost now.month (spent now.month l.costs + n) l.costs;
    requests = l.requests ++ reservation request_id now.month n ∷ [];
  })

-- the row of provider_requests with its measured cost
abbrev pub measured : Cost → Bool → Request → Request
measured n over r = record r { actual = some n; status = if over then overrun else settled }

-- `actual > reserved_amount or updated > self.monthly_budget`
pub exceeds : Config → ℕ → ℕ → ℕ → Bool
exceeds c actual reserved_amount updated =
    ltb reserved_amount actual || ltb c.monthly_budget updated

pub require_cost : Option ℕ → Result ℕ
require_cost none = err costs_row_missing
require_cost (some n) = ok n

-- `previous != str(actual)`, negated
pub same_actual : Option Cost → Cost → Bool
same_actual none n = false
same_actual (some m) n = str_eq m.text n.text

-- the branch of settle_request for a request that is still reserved
pub settle_reserved : Config → Cost → Request → Ledger → Result (Ledger × Bool)
unfolding lookup_cost require_cost set_cost exceeds is_request
settle_reserved c n r l = do
  total ← require_cost (lookup_cost r.month l.costs)
  let updated = (total - r.reserved_amount) + n.units
  let over = exceeds c n.units r.reserved_amount updated
  ok (
    record l {
      costs = set_cost r.month updated l.costs;
      requests = update_where (is_request r.request_id) (measured n over) l.requests;
    },
    over,
  )

-- the branches of settle_request on the status
pub settle_row : Config → Cost → RequestStatus → Request → Ledger → Result (Ledger × Bool)
unfolding settle_reserved same_actual
settle_row c n reserved r l = settle_reserved c n r l
settle_row c n _ r l = require (same_actual r.actual n) measured_cost_conflict >> ok (l, false)

pub settle_found : Config → Cost → Option Request → Ledger → Result (Ledger × Bool)
unfolding settle_row
settle_found c n none l = err reservation_missing
settle_found c n (some r) l = settle_row c n r.status r l

-- the transaction of settle_request for an amount and its text: the committed state and whether it
-- raises afterwards
pub settle_transaction : Config → String → Amount → String → Ledger → Result (Ledger × Bool)
unfolding require_amount settle_found is_request
settle_transaction c request_id a text l = do
  n ← require_amount invalid_measured_cost a
  settle_found c (record { units = n; text = text }) (find (is_request request_id) l.requests) l

pub settle_outcome : Ledger → Result (Ledger × Bool) → Ledger × Result (Unit {0})
settle_outcome l (ok (l', over)) = (l', require (not over) measured_cost_overrun)
settle_outcome l (err e) = (l, err e)

-- ReviewLedger.settle_request: the state that is left and what the call returns or raises
pub settle_request : Config → String → Amount → String → Ledger → Ledger × Result (Unit {0})
unfolding settle_transaction settle_outcome
settle_request c request_id a text l = settle_outcome l (settle_transaction c request_id a text l)
