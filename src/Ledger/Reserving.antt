-- ===== src/Ledger/Reserving.antt =====
-- review.py, record_cost and reserve_request: the budget and the accounts after an accepted call.
use parliament.Base.{
  leb, if◌then◌else◌, leb→le, Bool-cases, ||-eq-false, &&-false, ok-injective, str_eq_comm, any,
  find, ok, require, >>=-eq-ok, >>-eq-ok, require-eq-ok, ℕ, ◌+◌, ◌-◌, ◌≤◌, String, ◌≡◌, refl, sym,
  ◌∙◌, subst, inl, inr, Bool, true, false, not, none, List, [], ◌∷◌, ◌++◌, arith, str_eq,
  str_eq_iff, invalid_cost,
}
use parliament.Base.Tables.{any-append, any-find}
use parliament.Ledger.{
  Config, Now, Amount, Ledger, Request, set_cost, spent, is_request, reservation, blocks,
  is_overrun, require_amount, available, record_cost, reserve_request,
}
use parliament.Ledger.Budget.{
  charge, charges, charges-append, charge-reservation, spent-set_cost, Unique,
}

-- Request ids are unique; what a month's requests hold is part of what the month has spent; and a
-- month without an overrun has spent no more than the budget.
abbrev pub IsFunded : Config → Ledger → Type 0
IsFunded c l =
    Unique l.requests
    × ((m : String) → charges m l.requests ≤ spent m l.costs)
    × ((m : String) → any (blocks m) l.requests ≡ false → spent m l.costs ≤ c.monthly_budget)

-- what a month has spent after a month's cost is written: the same month's, or no less
pub written :
    (P : String → ℕ → Type 0) (month m : String) (n : ℕ) (costs : List (String × ℕ))
    → P month n
    → (str_eq month m ≡ false → P m (spent m costs))
    → P m (spent m (set_cost month n costs))
written P month m n costs p q =
    subst (P m) (sym (spent-set_cost month m n costs)) (branch (str_eq month m) refl)
  where
    branch : (b : Bool) → str_eq month m ≡ b → P m (if b then n else spent m costs)
    branch true e = subst (λ x. P x n) ((str_eq_iff month m).0 e) p
    branch false e = q e

-- A cost that is recorded was within what was available, and keeps the accounts.
pub record_cost-IsFunded :
    (c : Config) (a : Amount) (now : Now) (l l' : Ledger)
    → IsFunded c l
    → record_cost c a now l ≡ ok l'
    → IsFunded c l'
unfolding record_cost available
record_cost-IsFunded c a now l l' (u, covered, capped) h =
    let (n, _, h1) = >>=-eq-ok (require_amount invalid_cost a) _ h in
    let (g, h2) = >>-eq-ok (require (leb n (c.monthly_budget - spent now.month l.costs)) _) _ h1 in
    let room = leb→le _ _ (require-eq-ok _ _ g) in
    let total = spent now.month l.costs + n in
    subst (λ x. IsFunded c x) (ok-injective h2)
      (
        u,
        (λ m.
            written (λ x k. charges x l.requests ≤ k) now.month m total l.costs
              (let k = covered now.month in omega (arith, k)) (λ d. covered m)),
        (λ m e.
            written (λ x k. any (blocks x) l.requests ≡ false → k ≤ c.monthly_budget) now.month m
              total l.costs (λ e'. let k = capped now.month e' in omega (arith, k, room))
              (λ d. capped m) e),
      )

Unique-append :
    (request_id month : String) (n : ℕ) (rows : List Request)
    → Unique rows
    → find (is_request request_id) rows ≡ none
    → Unique (rows ++ reservation request_id month n ∷ [])
unfolding is_request
Unique-append request_id month n [] u h = (refl, tt)
Unique-append request_id month n (x ∷ rows) u h =
    elim (Bool-cases (str_eq x.request_id request_id)) [
      | inl here ↦ absurd (let h' = rw here at h in cc)
      | inr other ↦ (
        find-append x.request_id rows u.0 (rw (str_eq_comm request_id x.request_id) other),
        Unique-append request_id month n rows u.1 (rw other at h),
      )
    ]
  where
    find-append :
        (id : String) (xs : List Request)
        → find (is_request id) xs ≡ none
        → str_eq request_id id ≡ false
        → find (is_request id) (xs ++ reservation request_id month n ∷ []) ≡ none
    find-append id [] k d = rw d refl
    find-append id (y ∷ xs) k d = elim (Bool-cases (str_eq y.request_id id)) [
      | inl here ↦ absurd (let k' = rw here at k in cc)
      | inr other ↦ rw other (find-append id xs (rw other at k) d)
    ]

not-true : (b : Bool) → not b ≡ true → b ≡ false
not-true true h = sym h
not-true false h = refl

blocks-reservation :
    (m request_id month : String) (n : ℕ) → blocks m (reservation request_id month n) ≡ false
unfolding blocks is_overrun
blocks-reservation m request_id month n = &&-false (str_eq month m)

any-reserved :
    (m request_id month : String) (n : ℕ) (rows : List Request)
    → any (blocks m) (rows ++ reservation request_id month n ∷ []) ≡ false
    → any (blocks m) rows ≡ false
any-reserved m request_id month n rows h =
    (||-eq-false (any (blocks m) rows) (any (blocks m) (reservation request_id month n ∷ []))
      (sym (any-append (blocks m) rows (reservation request_id month n ∷ [])) ∙ h)).0

charges-reserved :
    (m request_id month : String) (n k : ℕ) (rows : List Request)
    → charges m rows + (if str_eq month m then n else 0) ≤ k
    → charges m (rows ++ reservation request_id month n ∷ []) ≤ k
charges-reserved m request_id month n k rows h =
    let e = charges-append m rows (reservation request_id month n ∷ []) in
    let c = charge-reservation request_id month n in omega (arith, e, h, head (str_eq month m) c)
  where
    head :
        (b : Bool)
        → charge (reservation request_id month n) ≡ n
        → (if b then charge (reservation request_id month n) else 0) ≡ (if b then n else 0)
    head true c = c
    head false c = refl

-- A reservation that is accepted keeps the month within the budget, even when it was the last of
-- many, and is itself part of what the month has spent.
pub reserve_request-IsFunded :
    (c : Config) (a : Amount) (now : Now) (request_id : String) (l l' : Ledger)
    → IsFunded c l
    → reserve_request c a now request_id l ≡ ok l'
    → IsFunded c l'
unfolding reserve_request
reserve_request-IsFunded c a now request_id l l' (u, covered, capped) h =
    let (n, _, h1) = >>=-eq-ok (require_amount invalid_cost a) _ h in
    let (_, h2) = >>-eq-ok (require (not (any (blocks now.month) l.requests)) _) _ h1 in
    let total = spent now.month l.costs + n in
    let (g, h3) = >>-eq-ok (require (leb total c.monthly_budget) _) _ h2 in
    let (f, h4) = >>-eq-ok (require (not (any (is_request request_id) l.requests)) _) _ h3 in
    let room = leb→le _ _ (require-eq-ok _ _ g) in
    let free = any-find (is_request request_id) l.requests (not-true _ (require-eq-ok _ _ f)) in
    subst (λ x. IsFunded c x) (ok-injective h4)
      (
        Unique-append request_id now.month n l.requests u free,
        (λ m. charges-reserved m request_id now.month n _ l.requests (held m n)),
        (λ m e.
            written (λ x k. any (blocks x) l.requests ≡ false → k ≤ c.monthly_budget) now.month m
              total l.costs (λ e'. room) (λ d. capped m)
              (any-reserved m request_id now.month n l.requests e)),
      )
  where
    held :
        (m : String) (n : ℕ)
        → charges m l.requests + (if str_eq now.month m then n else 0)
          ≤ spent m (set_cost now.month (spent now.month l.costs + n) l.costs)
    held m n =
        subst (λ k. charges m l.requests + (if str_eq now.month m then n else 0) ≤ k)
          (sym (spent-set_cost now.month m (spent now.month l.costs + n) l.costs))
          (branch (str_eq now.month m) refl)
      where
        branch :
            (b : Bool)
            → str_eq now.month m ≡ b
            → charges m l.requests + (if b then n else 0)
              ≤ (if b then spent now.month l.costs + n else spent m l.costs)
        branch true e =
            subst (λ x. charges x l.requests + n ≤ spent now.month l.costs + n)
              ((str_eq_iff now.month m).0 e) (let k = covered now.month in omega (arith, k))
        branch false e = let k = covered m in omega (arith, k)
