-- ===== src/Ledger/Settling.antt =====
-- review.py, settle_request: the accounts after a settlement.
use parliament.Base.{
  ltb, if◌then◌else◌, Bool-cases, str_eq_refl, ||-eq-false, &&-false, some-eq, ok-injective, any,
  find, ok, require, >>=-eq-ok, >>-eq-ok, ℕ, ◌+◌, ◌-◌, ◌≤◌, String, ◌≡◌, refl, sym, ap, ◌∙◌, subst,
  inl, inr, Bool, true, false, Option, none, some, List, [], ◌∷◌, arith, str_eq,
  invalid_measured_cost,
}
use parliament.Base.Tables.{update_where, update_where-none, find-some, find-any}
use parliament.Ledger.{
  Cost, Config, Amount, Ledger, Request, RequestStatus, lookup_cost, or_zero, spent, is_request,
  measured, blocks, is_overrun, require_amount, require_cost, exceeds, same_actual, settle_reserved,
  settle_row, settle_transaction, reserved, settled, overrun,
}
use parliament.Ledger.Budget.{charges, charges-measured, charge-le-charges, charge-reserved, Unique}
use parliament.Ledger.Reserving.{IsFunded, written}
use parliament.Ledger.Settlement.{
  settle_transaction-found, is_request-id, find-measured, measured-blocks,
}

find-update :
    (id request_id : String) (n : Cost) (over : Bool) (rows : List Request)
    → find (is_request id) rows ≡ none
    → find (is_request id) (update_where (is_request request_id) (measured n over) rows) ≡ none
unfolding is_request
find-update id request_id n over [] h = refl
find-update id request_id n over (x ∷ rows) h = elim (Bool-cases (str_eq x.request_id id)) [
  | inl here ↦ absurd (let h' = rw here at h in cc)
  | inr other ↦
      rw (same_id (str_eq x.request_id request_id))
        (rw other (find-update id request_id n over rows (rw other at h)))
]
  where
    same_id : (b : Bool) → (if b then measured n over x else x).request_id ≡ x.request_id
    same_id true = refl
    same_id false = refl

Unique-update :
    (request_id : String) (n : Cost) (over : Bool) (rows : List Request)
    → Unique rows
    → Unique (update_where (is_request request_id) (measured n over) rows)
Unique-update request_id n over [] u = tt
Unique-update request_id n over (x ∷ rows) u = (
  rw (same_id (is_request request_id x)) (find-update x.request_id request_id n over rows u.0),
  Unique-update request_id n over rows u.1,
)
  where
    same_id : (b : Bool) → (if b then measured n over x else x).request_id ≡ x.request_id
    same_id true = refl
    same_id false = refl

-- A settlement takes no overrun of a month away.
blocks-update :
    (m request_id : String) (n : Cost) (over : Bool) (r : Request) (rows : List Request)
    → Unique rows
    → find (is_request request_id) rows ≡ some r
    → r.status ≡ reserved
    → any (blocks m) (update_where (is_request request_id) (measured n over) rows) ≡ false
    → any (blocks m) rows ≡ false
blocks-update m request_id n over r [] u h s k = refl
blocks-update m request_id n over r (x ∷ rows) u h s k =
    elim (Bool-cases (is_request request_id x)) [
      | inl here ↦
          let e : x ≡ r = some-eq (rw here at h) in
          let later = rw (is_request-id request_id x here) at u.0 in
          let kept = update_where-none (is_request request_id) (measured n over) rows later in
          let k' = rw (here, kept) at k in
          let (_, rest) = ||-eq-false (blocks m (measured n over x)) _ k' in
          rw (free x (ap (λ y. y.status) e ∙ s)) rest
      | inr other ↦
          let (a, b) = ||-eq-false (blocks m x) _ (rw other at k) in
          rw a (blocks-update m request_id n over r rows u.1 (rw other at h) s b)
    ]
  where
    free : (y : Request) → y.status ≡ reserved → blocks m y ≡ false
    free y e = unfold blocks is_overrun in rw e (&&-false (str_eq y.month m))

lookup-spent :
    (m : String) (costs : List (String × ℕ)) (total : ℕ)
    → require_cost (lookup_cost m costs) ≡ ok total
    → spent m costs ≡ total
unfolding spent or_zero require_cost
lookup-spent m costs total h = read (lookup_cost m costs) h
  where
    read : (o : Option ℕ) → require_cost o ≡ ok total → or_zero o ≡ total
    read none h = absurd (let h' = h in cc)
    read (some k) h = ok-injective h

not_exceeding :
    (c : Config) (n k updated : ℕ) → exceeds c n k updated ≡ false → updated ≤ c.monthly_budget
unfolding exceeds
not_exceeding c n k updated h =
    let (_, e) = ||-eq-false (ltb k n) (ltb c.monthly_budget updated) h in ground (arith, e)

overrun_row :
    (r : Request) (n : Cost) (rows : List Request)
    → find (is_request r.request_id) rows ≡ some r
    → any (blocks r.month) (update_where (is_request r.request_id) (measured n true) rows) ≡ true
overrun_row r n rows f =
    find-any (is_request r.request_id) (blocks r.month) _
      (find-measured r.request_id n true r rows f) (measured-blocks n r)

settle_reserved-IsFunded :
    (c : Config) (n : Cost) (r : Request) (l l' : Ledger) (over : Bool)
    → IsFunded c l
    → find (is_request r.request_id) l.requests ≡ some r
    → r.status ≡ reserved
    → settle_reserved c n r l ≡ ok (l', over)
    → IsFunded c l'
unfolding settle_reserved
settle_reserved-IsFunded c n r l l' over (u, covered, capped) f s h =
    let (total, g, h1) = >>=-eq-ok (require_cost (lookup_cost r.month l.costs)) _ h in
    let updated = (total - r.reserved_amount) + n.units in
    let o = exceeds c n.units r.reserved_amount updated in
    let rows = update_where (is_request r.request_id) (measured n o) l.requests in
    let same_total = lookup-spent r.month l.costs total g in
    subst (λ x. IsFunded c x.0) (ok-injective h1)
      (
        Unique-update r.request_id n o l.requests u,
        (λ m.
            written (λ x k. charges x rows ≤ k) r.month m updated l.costs (own total o same_total)
              (other m o)),
        (λ m e.
            written (λ x k. any (blocks x) rows ≡ false → k ≤ c.monthly_budget) r.month m updated
              l.costs (λ e'. not_exceeding c n.units r.reserved_amount updated (over-false o e'))
              (λ d e'. capped m (blocks-update m r.request_id n o r l.requests u f s e')) e),
      )
  where
    own :
        (total : ℕ) (o : Bool)
        → spent r.month l.costs ≡ total
        → charges r.month (update_where (is_request r.request_id) (measured n o) l.requests)
          ≤ (total - r.reserved_amount) + n.units
    own total o e =
        let a = charges-measured r.month r.request_id n o r l.requests u f in
        let a' = rw (str_eq_refl r.month) at a in
        let b = charge-le-charges r.request_id r l.requests f in
        let d = charge-reserved r s in let k = covered r.month in omega (arith, a', b, d, k, e)

    other :
        (m : String) (o : Bool)
        → str_eq r.month m ≡ false
        → charges m (update_where (is_request r.request_id) (measured n o) l.requests)
          ≤ spent m l.costs
    other m o d =
        let a = charges-measured m r.request_id n o r l.requests u f in
        let a' = rw d at a in let k = covered m in omega (arith, a', k)

    over-false :
        (o : Bool)
        → any (blocks r.month) (update_where (is_request r.request_id) (measured n o) l.requests)
          ≡ false
        → o ≡ false
    over-false false e = refl
    over-false true e = sym (overrun_row r n l.requests f) ∙ e

settle_row-IsFunded :
    (c : Config) (n : Cost) (s : RequestStatus) (r : Request) (l l' : Ledger) (over : Bool)
    → IsFunded c l
    → find (is_request r.request_id) l.requests ≡ some r
    → r.status ≡ s
    → settle_row c n s r l ≡ ok (l', over)
    → IsFunded c l'
unfolding settle_row
settle_row-IsFunded c n reserved r l l' over w f e h =
    settle_reserved-IsFunded c n r l l' over w f e h
settle_row-IsFunded c n settled r l l' over w f e h =
    let (_, h1) = >>-eq-ok (require (same_actual r.actual n) _) _ h in
    subst (λ x. IsFunded c x.0) (ok-injective h1) w
settle_row-IsFunded c n overrun r l l' over w f e h =
    let (_, h1) = >>-eq-ok (require (same_actual r.actual n) _) _ h in
    subst (λ x. IsFunded c x.0) (ok-injective h1) w

-- A committed settlement, overrun or not, keeps the accounts: the measured amount takes the
-- reservation's place, and a month that passes the budget by it has an overrun from then on.
pub settle_transaction-IsFunded :
    (c : Config) (request_id : String) (a : Amount) (text : String) (l l' : Ledger) (over : Bool)
    → IsFunded c l
    → settle_transaction c request_id a text l ≡ ok (l', over)
    → IsFunded c l'
unfolding settle_transaction
settle_transaction-IsFunded c request_id a text l l' over w h =
    let (n, _, h1) = >>=-eq-ok (require_amount invalid_measured_cost a) _ h in
    let (r, f, h2) =
      settle_transaction-found c request_id (record { units = n; text = text }) l
        (find (is_request request_id) l.requests) refl (l', over) h1 in
    let id = is_request-id request_id r (find-some (is_request request_id) _ f) in
    settle_row-IsFunded c (record { units = n; text = text }) r.status r l l' over w
      (subst (λ i. find (is_request i) l.requests ≡ some r) (sym id) f) refl h2
