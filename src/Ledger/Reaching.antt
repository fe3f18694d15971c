-- ===== src/Ledger/Reaching.antt =====
-- review.py, ReviewLedger: the ledgers that sequences of calls reach.
use parliament.Base.{
  ltb, leb, leb→le, Bool-cases, &&-eq-true, ok-injective, any, ok, require, >>=-eq-ok, >>-eq-ok,
  require-eq-ok, ℕ, ◌+◌, ◌≤◌, String, ◌≡◌, ap, subst, inl, inr, Bool, ◌&&◌, not, Option, none, some,
  [], arith, str_eq, invalid_measured_cost, invalid_cost,
}
use parliament.Ledger.{
  Cost, Approval, Config, Now, Ledger, Amount, Request, RequestStatus, amount, reserved, settled,
  overrun, opened, open_ledger, approved_on, approve, record_cost, reserve_request,
  settle_transaction, settle_found, settle_row, settle_reserved, blocks, is_request, require_amount,
  require_cost, lookup_cost, spent, available, same_actual, or_zero,
}
use parliament.Ledger.Approvals.{IsCapped, approve-IsCapped}
use parliament.Ledger.Reserving.{IsFunded, record_cost-IsFunded, reserve_request-IsFunded}
use parliament.Ledger.Settling.{settle_transaction-IsFunded}

-- one committed transaction; a call that raises before its commit leaves the ledger
pub data Step (c : Config) : Ledger → Ledger → Type 0 where
  approving :
      {l l' : Ledger} (identity : String) (now : Now)
      → approve c identity now l ≡ ok l'
      → Step c l l'
  costing : {l l' : Ledger} (a : Amount) (now : Now) → record_cost c a now l ≡ ok l' → Step c l l'
  reserving :
      {l l' : Ledger} (a : Amount) (now : Now) (id : String)
      → reserve_request c a now id l ≡ ok l'
      → Step c l l'
  settling :
      {l l' : Ledger} (id : String) (a : Amount) (text : String) (over : Bool)
      → settle_transaction c id a text l ≡ ok (l', over)
      → Step c l l'

pub data Reach (c : Config) : Ledger → Ledger → Type 0 where
  here : {l : Ledger} → Reach c l l
  next : {l m n : Ledger} → Reach c l m → Step c m n → Reach c l n

record_cost-approvals :
    (c : Config) (a : Amount) (now : Now) (l l' : Ledger)
    → record_cost c a now l ≡ ok l'
    → l.approvals ≡ l'.approvals
unfolding record_cost
record_cost-approvals c a now l l' h =
    let (n, _, h1) = >>=-eq-ok (require_amount invalid_cost a) _ h in
    let (_, h2) = >>-eq-ok (require (leb n (available c now l)) _) _ h1 in
    ap (λ x. x.approvals) (ok-injective h2)

reserve_request-approvals :
    (c : Config) (a : Amount) (now : Now) (id : String) (l l' : Ledger)
    → reserve_request c a now id l ≡ ok l'
    → l.approvals ≡ l'.approvals
unfolding reserve_request
reserve_request-approvals c a now id l l' h =
    let (n, _, h1) = >>=-eq-ok (require_amount invalid_cost a) _ h in
    let (_, h2) = >>-eq-ok (require (not (any (blocks now.month) l.requests)) _) _ h1 in
    let (_, h3) = >>-eq-ok (require (leb (spent now.month l.costs + n) c.monthly_budget) _) _ h2 in
    let (_, h4) = >>-eq-ok (require (not (any (is_request id) l.requests)) _) _ h3 in
    ap (λ x. x.approvals) (ok-injective h4)

settle_row-approvals :
    (c : Config) (n : Cost) (s : RequestStatus) (r : Request) (l l' : Ledger) (over : Bool)
    → settle_row c n s r l ≡ ok (l', over)
    → l.approvals ≡ l'.approvals
unfolding settle_row settle_reserved
settle_row-approvals c n reserved r l l' over h =
    let (_, _, h1) = >>=-eq-ok (require_cost (lookup_cost r.month l.costs)) _ h in
    ap (λ x. x.0.approvals) (ok-injective h1)
settle_row-approvals c n settled r l l' over h =
    let (_, h1) = >>-eq-ok (require (same_actual r.actual n) _) _ h in
    ap (λ x. x.0.approvals) (ok-injective h1)
settle_row-approvals c n overrun r l l' over h =
    let (_, h1) = >>-eq-ok (require (same_actual r.actual n) _) _ h in
    ap (λ x. x.0.approvals) (ok-injective h1)

settle_found-approvals :
    (c : Config) (n : Cost) (o : Option Request) (l l' : Ledger) (over : Bool)
    → settle_found c n o l ≡ ok (l', over)
    → l.approvals ≡ l'.approvals
unfolding settle_found
settle_found-approvals c n none l l' over h = absurd (let h' = h in cc)
settle_found-approvals c n (some r) l l' over h = settle_row-approvals c n r.status r l l' over h

settle_transaction-approvals :
    (c : Config) (id : String) (a : Amount) (text : String) (l l' : Ledger) (over : Bool)
    → settle_transaction c id a text l ≡ ok (l', over)
    → l.approvals ≡ l'.approvals
unfolding settle_transaction
settle_transaction-approvals c id a text l l' over h =
    let (n, _, h1) = >>=-eq-ok (require_amount invalid_measured_cost a) _ h in
    settle_found-approvals c (record { units = n; text = text }) _ l l' over h1

-- the accounts of the ledger, and its days
abbrev pub IsSound : Config → Ledger → Type 0
IsSound c l = IsFunded c l × IsCapped c l.approvals

approve-IsFunded :
    (c : Config) (identity : String) (now : Now) (l l' : Ledger)
    → IsFunded c l
    → approve c identity now l ≡ ok l'
    → IsFunded c l'
unfolding approve
approve-IsFunded c identity now l l' w h =
    elim (Bool-cases (any (λ r. str_eq r.identity identity) l.approvals)) [
      | inl known ↦ subst (IsFunded c) (ok-injective (rw known at h)) w
      | inr fresh ↦
          let (_, h1) =
            >>-eq-ok (require (ltb (approved_on now.day l.approvals) c.daily_cap) _) _
              (rw fresh at h) in
          subst (IsFunded c) (ok-injective h1) w
    ]

Step-IsSound : (c : Config) (l l' : Ledger) → Step c l l' → IsSound c l → IsSound c l'
Step-IsSound c l l' (approving identity now h) (w, k) =
    (approve-IsFunded c identity now l l' w h, approve-IsCapped c identity now l l' k h)
Step-IsSound c l l' (costing a now h) (w, k) = (
  record_cost-IsFunded c a now l l' w h,
  subst (IsCapped c) (record_cost-approvals c a now l l' h) k,
)
Step-IsSound c l l' (reserving a now id h) (w, k) = (
  reserve_request-IsFunded c a now id l l' w h,
  subst (IsCapped c) (reserve_request-approvals c a now id l l' h) k,
)
Step-IsSound c l l' (settling id a text over h) (w, k) = (
  settle_transaction-IsFunded c id a text l l' over w h,
  subst (IsCapped c) (settle_transaction-approvals c id a text l l' over h) k,
)

opened-IsSound : (c : Config) → IsSound c opened
unfolding IsCapped
opened-IsSound c = ((tt, (λ m. omega arith), λ m e. nothing_spent m), λ d. none_approved d)
  where
    nothing_spent : (m : String) → spent m [] ≤ c.monthly_budget
    nothing_spent m = unfold spent lookup_cost or_zero in omega arith

    none_approved : (d : String) → approved_on d [] ≤ c.daily_cap
    none_approved d = unfold approved_on in omega arith

Reach-IsSound : (c : Config) (l l' : Ledger) → Reach c l l' → IsSound c l → IsSound c l'
Reach-IsSound c l l' here k = k
Reach-IsSound c l l' (next {m = m} r s) k = Step-IsSound c m l' s (Reach-IsSound c l m r k)

open_ledger-cap : (a : Amount) (cap : ℕ) (c : Config) → open_ledger a cap ≡ ok c → c.daily_cap ≤ 3
unfolding open_ledger
open_ledger-cap (amount b) cap c h =
    let (g, h1) = >>-eq-ok (require (leb 1 cap && leb cap 3) _) _ h in
    let (_, g2) = &&-eq-true (leb 1 cap) _ (require-eq-ok _ _ g) in
    subst (λ x. x.daily_cap ≤ 3) (ok-injective h1) (leb→le cap 3 g2)
open_ledger-cap (parliament.Ledger.negative k) cap c h = absurd (let h' = h in cc)
open_ledger-cap parliament.Ledger.not_finite cap c h = absurd (let h' = h in cc)

-- In every ledger that committed calls reach from the empty one, however they are ordered: no day
-- has more than three approvals, a month's open reservations and measured costs are part of what it
-- has spent, and a month without an overrun has spent no more than its budget.
pub Reach-limits :
    (a : Amount) (cap : ℕ) (c : Config) (l : Ledger)
    → open_ledger a cap ≡ ok c
    → Reach c opened l
    → ((day : String) → approved_on day l.approvals ≤ 3) × IsFunded c l
Reach-limits a cap c l h r =
    let (w, k) = Reach-IsSound c opened l r (opened-IsSound c) in
    let three = open_ledger-cap a cap c h in (λ d. within d (k' k d) three, w)
  where
    k' : IsCapped c l.approvals → (d : String) → approved_on d l.approvals ≤ c.daily_cap
    k' k = unfold IsCapped in k

    within :
        (d : String)
        → approved_on d l.approvals ≤ c.daily_cap
        → c.daily_cap ≤ 3
        → approved_on d l.approvals ≤ 3
    within d x y = omega (arith, x, y)
