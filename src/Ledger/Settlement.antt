-- ===== src/Ledger/Settlement.antt =====
-- review.py, settle_request: what a settlement commits, and what a second one does.
use parliament.Base.{
  Bool-cases, str_eq_refl, some-eq, ok-injective, any, find, Result, ok, err, ◌>>◌, require,
  >>=-eq-ok, >>-eq-ok, require-eq-ok, ℕ, ◌+◌, ◌-◌, String, ◌≡◌, refl, sym, ap, ◌∙◌, subst, ◌≢◌, inl,
  inr, Bool, true, false, Option, none, some, List, [], ◌∷◌, str_eq_iff, measured_cost_conflict,
  overrun_unreconciled, str_eq,
}
use parliament.Base.Tables.{update_where, find-some, find-any}
use parliament.Ledger.{
  Cost, Config, Now, Ledger, Request, RequestStatus, amount, lookup_cost, is_request, measured,
  exceeds, same_actual, require_cost, settle_reserved, settle_row, settle_found, settle_transaction,
  settle_request, settle_outcome, reserve_request, blocks, is_overrun, reserved, settled, overrun,
}

is_request-measured :
    (request_id : String) (n : Cost) (over : Bool) (r : Request)
    → is_request request_id r ≡ true
    → is_request request_id (measured n over r) ≡ true
unfolding is_request
is_request-measured request_id n over r h = h

pub find-measured :
    (request_id : String) (n : Cost) (over : Bool) (r : Request) (rows : List Request)
    → find (is_request request_id) rows ≡ some r
    → find (is_request request_id) (update_where (is_request request_id) (measured n over) rows)
      ≡ some (measured n over r)
find-measured request_id n over r [] h = absurd (let h' = h in cc)
find-measured request_id n over r (x ∷ rows) h = elim (Bool-cases (is_request request_id x)) [
  | inl here ↦
      let e : x ≡ r = some-eq (rw here at h) in
      rw (here, is_request-measured request_id n over x here) (ap (λ y. some (measured n over y)) e)
  | inr other ↦ rw (other, other) (find-measured request_id n over r rows (rw other at h))
]

-- what a committed settlement leaves of its request: measured at a cost of that text, now or before
abbrev pub Measured : String → String → Ledger → Type 0
Measured request_id text l =
    (r : Request) × (find (is_request request_id) l.requests ≡ some r)
    × ((m : Cost) × (r.actual ≡ some m) × (m.text ≡ text))
    × (r.status ≢ reserved)

overrun_apart : overrun ≢ reserved
overrun_apart e = cc

settled_apart : settled ≢ reserved
settled_apart e = cc

measured-status : (n : Cost) (over : Bool) (r : Request) → (measured n over r).status ≢ reserved
measured-status n true r = overrun_apart
measured-status n false r = settled_apart

same_actual-eq :
    (o : Option Cost) (n : Cost)
    → same_actual o n ≡ true
    → (m : Cost) × (o ≡ some m) × (m.text ≡ n.text)
unfolding same_actual
same_actual-eq none n h = absurd (let x = h in cc)
same_actual-eq (some m) n h = (m, refl, (str_eq_iff m.text n.text).0 h)

settle_reserved-Measured :
    (c : Config) (n : Cost) (r : Request) (l l' : Ledger) (over : Bool)
    → find (is_request r.request_id) l.requests ≡ some r
    → settle_reserved c n r l ≡ ok (l', over)
    → Measured r.request_id n.text l'
unfolding settle_reserved
settle_reserved-Measured c n r l l' over f h =
    let (total, g, h1) = >>=-eq-ok (require_cost (lookup_cost r.month l.costs)) _ h in
    let updated = (total - r.reserved_amount) + n.units in
    let o = exceeds c n.units r.reserved_amount updated in
    subst (λ x. Measured r.request_id n.text x.0) (ok-injective h1)
      (
        measured n o r,
        find-measured r.request_id n o r l.requests f,
        (n, refl, refl),
        measured-status n o r,
      )

-- the branch for a request that is no longer reserved
abbrev settle_again : Cost → Request → Ledger → Result (Ledger × Bool)
settle_again n r l = require (same_actual r.actual n) measured_cost_conflict >> ok (l, false)

settled-Measured :
    (c : Config) (n : Cost) (r : Request) (l l' : Ledger) (over : Bool)
    → find (is_request r.request_id) l.requests ≡ some r
    → r.status ≢ reserved
    → settle_again n r l ≡ ok (l', over)
    → Measured r.request_id n.text l'
settled-Measured c n r l l' over f s h =
    let (g, h1) = >>-eq-ok (require (same_actual r.actual n) _) _ h in
    subst (λ x. Measured r.request_id n.text x.0) (ok-injective h1)
      (r, f, same_actual-eq r.actual n (require-eq-ok _ _ g), s)

settle_row-Measured :
    (c : Config) (n : Cost) (s : RequestStatus) (r : Request) (l l' : Ledger) (over : Bool)
    → r.status ≡ s
    → find (is_request r.request_id) l.requests ≡ some r
    → settle_row c n s r l ≡ ok (l', over)
    → Measured r.request_id n.text l'
unfolding settle_row
settle_row-Measured c n reserved r l l' over e f h = settle_reserved-Measured c n r l l' over f h
settle_row-Measured c n settled r l l' over e f h =
    settled-Measured c n r l l' over f (λ k. settled_apart (sym e ∙ k)) h
settle_row-Measured c n overrun r l l' over e f h =
    settled-Measured c n r l l' over f (λ k. overrun_apart (sym e ∙ k)) h

-- the request that a committed settlement was about
pub settle_transaction-found :
    (c : Config) (request_id : String) (n : Cost) (l : Ledger) (o : Option Request)
    → find (is_request request_id) l.requests ≡ o
    → (x : Ledger × Bool) → settle_found c n o l ≡ ok x
    → (r : Request) × (o ≡ some r) × (settle_row c n r.status r l ≡ ok x)
unfolding settle_found
settle_transaction-found c request_id n l none f x h = absurd (let h' = h in cc)
settle_transaction-found c request_id n l (some r) f x h = (r, refl, h)

pub is_request-id :
    (request_id : String) (r : Request) → is_request request_id r ≡ true → r.request_id ≡ request_id
unfolding is_request
is_request-id request_id r h = (str_eq_iff r.request_id request_id).0 h

settle_transaction-Measured :
    (c : Config) (request_id : String) (n : ℕ) (text : String) (l l' : Ledger) (over : Bool)
    → settle_transaction c request_id (amount n) text l ≡ ok (l', over)
    → Measured request_id text l'
unfolding settle_transaction
settle_transaction-Measured c request_id n text l l' over h =
    let cost : Cost = record { units = n; text = text } in
    let (r, f, h1) =
      settle_transaction-found c request_id cost l (find (is_request request_id) l.requests) refl
        (l', over) h in
    let id : r.request_id ≡ request_id =
      is_request-id request_id r (find-some (is_request request_id) _ f) in
    subst (λ i. Measured i text l') id
      (settle_row-Measured c cost r.status r l l' over refl
        (subst (λ i. find (is_request i) l.requests ≡ some r) (sym id) f) h1)

settle_row-again :
    (c : Config) (m n : Cost) (s : RequestStatus) (r : Request) (l : Ledger)
    → s ≢ reserved
    → r.actual ≡ some n
    → settle_row c m s r l
      ≡ (require (str_eq n.text m.text) measured_cost_conflict >> ok (l, false))
unfolding settle_row same_actual
settle_row-again c m n reserved r l s e = absurd (s refl)
settle_row-again c m n settled r l s e = rw e refl
settle_row-again c m n overrun r l s e = rw e refl

-- Once a settlement of an amount is committed, overrun or not, a further call for the request with a
-- finite amount that is not negative never changes the ledger: it returns where the amount has the
-- same decimal text and raises the conflict for any other text.
pub settle_request-again :
    (c : Config) (request_id : String) (n m : ℕ) (text again : String) (l l' : Ledger) (over : Bool)
    → settle_transaction c request_id (amount n) text l ≡ ok (l', over)
    → settle_request c request_id (amount m) again l'
      ≡ (l', require (str_eq text again) measured_cost_conflict)
unfolding settle_request
settle_request-again c request_id n m text again l l' over h =
    let (r, f, (k, a, e), s) = settle_transaction-Measured c request_id n text l l' over h in
    ap (settle_outcome l') (step r k f a e s) ∙ outcome (str_eq text again)
  where
    step :
        (r : Request) (k : Cost)
        → find (is_request request_id) l'.requests ≡ some r
        → r.actual ≡ some k
        → k.text ≡ text
        → r.status ≢ reserved
        → settle_transaction c request_id (amount m) again l'
          ≡ (require (str_eq text again) measured_cost_conflict >> ok (l', false))
    step r k f a e s =
        unfold settle_transaction settle_found in
        rw f (
          settle_row-again c (record { units = m; text = again }) k r.status r l' s a
          ∙ ap (λ x. require (str_eq x again) measured_cost_conflict >> ok (l', false)) e)

    outcome :
        (b : Bool)
        → settle_outcome l' (require b measured_cost_conflict >> ok (l', false))
          ≡ (l', require b measured_cost_conflict)
    outcome true = unfold settle_outcome in refl
    outcome false = unfold settle_outcome in refl

pub measured-blocks : (n : Cost) (r : Request) → blocks r.month (measured n true r) ≡ true
unfolding blocks is_overrun
measured-blocks n r = rw (str_eq_refl r.month) refl

flags_apart : false ≢ true
flags_apart e = cc

overrun-blocks :
    (c : Config) (n : Cost) (s : RequestStatus) (r : Request) (l l' : Ledger)
    → find (is_request r.request_id) l.requests ≡ some r
    → settle_row c n s r l ≡ ok (l', true)
    → any (blocks r.month) l'.requests ≡ true
unfolding settle_row
overrun-blocks c n reserved r l l' f h =
    unfold settle_reserved in
    let (total, g, h1) = >>=-eq-ok (require_cost (lookup_cost r.month l.costs)) _ h in
    let updated = (total - r.reserved_amount) + n.units in
    let o = exceeds c n.units r.reserved_amount updated in
    let e = ok-injective h1 in
    let over : o ≡ true = ap (λ x. x.1) e in
    let found = find-measured r.request_id n true r l.requests f in
    let rows = update_where (is_request r.request_id) (measured n true) l.requests in
    subst (λ x. any (blocks r.month) x.0.requests ≡ true) e
      (rw over
        (find-any (is_request r.request_id) (blocks r.month) rows found (measured-blocks n r)))
overrun-blocks c n settled r l l' f h =
    let (_, h1) = >>-eq-ok (require (same_actual r.actual n) _) _ h in
    absurd (flags_apart (ap (λ x. x.1) (ok-injective h1)))
overrun-blocks c n overrun r l l' f h =
    let (_, h1) = >>-eq-ok (require (same_actual r.actual n) _) _ h in
    absurd (flags_apart (ap (λ x. x.1) (ok-injective h1)))

-- After a settlement that overran its reservation or the budget, every reservation of that month is
-- refused, whatever its amount.
pub overrun-refuses_reserve :
    (c : Config) (request_id : String) (n : ℕ) (text : String) (l l' : Ledger) (r : Request) (k : ℕ)
    (now : Now) (other_id : String)
    → find (is_request request_id) l.requests ≡ some r
    → settle_transaction c request_id (amount n) text l ≡ ok (l', true)
    → now.month ≡ r.month
    → reserve_request c (amount k) now other_id l' ≡ err overrun_unreconciled
unfolding reserve_request
overrun-refuses_reserve c request_id n text l l' r k now other_id f h e =
    let id = is_request-id request_id r (find-some (is_request request_id) _ f) in
    let blocked =
      overrun-blocks c (record { units = n; text = text }) r.status r l l'
        (subst (λ i. find (is_request i) l.requests ≡ some r) (sym id) f) (row h) in
    let blocked' = subst (λ m. any (blocks m) l'.requests ≡ true) (sym e) blocked in
    rw blocked' refl
  where
    row :
        settle_transaction c request_id (amount n) text l ≡ ok (l', true)
        → settle_row c (record { units = n; text = text }) r.status r l ≡ ok (l', true)
    row h = unfold settle_transaction settle_found in rw f at h
