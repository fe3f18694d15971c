-- ===== src/Ledger/Budget.antt =====
-- review.py, the tables `costs` and `provider_requests`: what a month has spent and what its
-- requests have charged, before and after the writes of a transaction.
use parliament.Base.{
  if◌then◌else◌, Bool-cases, str_eq_refl, some-eq, find, ℕ, ◌+◌, ◌≤◌, String, ◌≡◌, refl, sym, ap,
  ◌∙◌, subst, inl, inr, Bool, true, false, none, some, List, [], ◌∷◌, ◌++◌, arith, str_eq,
  str_eq_iff, Option,
}
use parliament.Base.Tables.{update_where, update_where-none}
use parliament.Ledger.{
  Cost, Request, RequestStatus, lookup_cost, or_zero, spent, set_cost, is_request, reservation,
  measured, reserved,
}

lookup-set_cost :
    (month m : String) (n : ℕ) (costs : List (String × ℕ))
    → lookup_cost m (set_cost month n costs)
      ≡ (if str_eq month m then some n else lookup_cost m costs)
unfolding lookup_cost set_cost
lookup-set_cost month m n [] = refl
lookup-set_cost month m n ((k, v) ∷ costs) =
    ground (
      arith,
      lookup-set_cost month m n costs,
      str_eq_iff k month,
      str_eq_iff k m,
      str_eq_iff month m,
    )

-- A write of a month's cost is read for that month, and leaves the other months.
pub spent-set_cost :
    (month m : String) (n : ℕ) (costs : List (String × ℕ))
    → spent m (set_cost month n costs) ≡ (if str_eq month m then n else spent m costs)
unfolding spent or_zero
spent-set_cost month m n costs =
    ap or_zero (lookup-set_cost month m n costs) ∙ branch (str_eq month m)
  where
    branch :
        (b : Bool)
        → or_zero (if b then some n else lookup_cost m costs)
          ≡ (if b then n else or_zero (lookup_cost m costs))
    branch true = refl
    branch false = refl

-- the amount of a measured cost, if there is one
units_or_zero : Option Cost → ℕ
units_or_zero none = 0
units_or_zero (some n) = n.units

-- what a request holds of its month's budget: its reservation until it is measured
pub charge : Request → ℕ
unfolding units_or_zero
charge r = charge_of r.status r
  where
    charge_of : RequestStatus → Request → ℕ
    charge_of reserved r = r.reserved_amount
    charge_of _ r = units_or_zero r.actual

abbrev pub charges : String → List Request → ℕ
charges month [] = 0
charges month (r ∷ rows) = (if str_eq r.month month then charge r else 0) + charges month rows

pub charges-append :
    (month : String) (xs ys : List Request)
    → charges month (xs ++ ys) ≡ charges month xs + charges month ys
charges-append month [] ys = omega arith
charges-append month (r ∷ xs) ys = omega (arith, charges-append month xs ys)

pub charge-reservation :
    (request_id month : String) (n : ℕ) → charge (reservation request_id month n) ≡ n
unfolding charge
charge-reservation request_id month n = refl

pub charge-measured : (n : Cost) (over : Bool) (r : Request) → charge (measured n over r) ≡ n.units
unfolding charge units_or_zero
charge-measured n true r = refl
charge-measured n false r = refl

pub charge-reserved : (r : Request) → r.status ≡ reserved → charge r ≡ r.reserved_amount
unfolding charge
charge-reserved r h = rw h refl

-- PRIMARY KEY on request_id
abbrev pub Unique : List Request → Type 0
Unique [] = Unit
Unique (r ∷ rows) = (find (is_request r.request_id) rows ≡ none) × Unique rows

is_request-eq :
    (request_id : String) (r : Request) → is_request request_id r ≡ true → r.request_id ≡ request_id
unfolding is_request
is_request-eq request_id r h = (str_eq_iff r.request_id request_id).0 h

-- A measured request exchanges its charge for the measured one, in its own month.
pub charges-measured :
    (month request_id : String) (n : Cost) (over : Bool) (r : Request) (rows : List Request)
    → Unique rows
    → find (is_request request_id) rows ≡ some r
    → charges month (update_where (is_request request_id) (measured n over) rows)
        + (if str_eq r.month month then charge r else 0)
      ≡ charges month rows + (if str_eq r.month month then n.units else 0)
charges-measured month request_id n over r [] u h = absurd (let h' = h in cc)
charges-measured month request_id n over r (x ∷ rows) u h =
    elim (Bool-cases (is_request request_id x)) [
      | inl here ↦
          let e : x ≡ r = some-eq (rw here at h) in
          let later = rw (is_request-eq request_id x here) at u.0 in
          rw (here, update_where-none (is_request request_id) (measured n over) rows later, sym e)
            (head (str_eq x.month month))
      | inr other ↦ rw other (
          let ih = charges-measured month request_id n over r rows u.1 (rw other at h) in
          omega (arith, ih))
    ]
  where
    head :
        (b : Bool)
        → ((if b then charge (measured n over x) else 0) + charges month rows)
            + (if b then charge x else 0)
          ≡ ((if b then charge x else 0) + charges month rows) + (if b then n.units else 0)
    head true = omega (arith, charge-measured n over x)
    head false = omega arith

-- A request that is found is charged to its month.
pub charge-le-charges :
    (request_id : String) (r : Request) (rows : List Request)
    → find (is_request request_id) rows ≡ some r
    → charge r ≤ charges r.month rows
charge-le-charges request_id r [] h = absurd (let h' = h in cc)
charge-le-charges request_id r (x ∷ rows) h = elim (Bool-cases (is_request request_id x)) [
  | inl here ↦
      let e : x ≡ r = some-eq (rw here at h) in
      subst (λ y. charge y ≤ charges y.month (x ∷ rows)) e (rw (str_eq_refl x.month) (omega arith))
  | inr other ↦ let ih = charge-le-charges request_id r rows (rw other at h) in omega (arith, ih)
]
