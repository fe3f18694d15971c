-- ===== src/Ledger/Approvals.antt =====
-- review.py, approve: the daily cap and the single row of an identity.
use parliament.Base.{
  ltb, if◌then◌else◌, ltb→lt, Bool-cases, str_eq_refl, ok-injective, length, any, ok, require,
  >>-eq-ok, require-eq-ok, ℕ, ◌+◌, ◌≤◌, ◌<◌, String, ◌≡◌, refl, sym, subst, inl, inr, Bool, true,
  false, ◌||◌, List, [], ◌∷◌, ◌++◌, arith, str_eq, str_eq_iff,
}
use parliament.Ledger.{Approval, Config, Now, Ledger, approved_on, approve}

-- No day has more approvals than the cap.
unfoldable pub IsCapped : Config → List Approval → Type 0
unfolding approved_on
IsCapped c rows = (day : String) → approved_on day rows ≤ c.daily_cap

approved_on-append :
    (day : String) (r : Approval) (rows : List Approval)
    → approved_on day (rows ++ r ∷ []) ≡ approved_on day rows + (if str_eq r.day day then 1 else 0)
unfolding approved_on
approved_on-append day r [] = ground arith
approved_on-append day r (x ∷ rows) =
    let ih = approved_on-append day r rows in
    head (str_eq x.day day) (if str_eq r.day day then 1 else 0) _ _ ih
  where
    head :
        (b : Bool) (n : ℕ) (xs ys : List Approval)
        → length ys ≡ length xs + n
        → length (if b then x ∷ ys else ys) ≡ length (if b then x ∷ xs else xs) + n
    head true n xs ys ih = omega (arith, ih)
    head false n xs ys ih = ih

-- An approval that is accepted keeps every day within the cap.
pub approve-IsCapped :
    (c : Config) (identity : String) (now : Now) (l l' : Ledger)
    → IsCapped c l.approvals
    → approve c identity now l ≡ ok l'
    → IsCapped c l'.approvals
unfolding approve IsCapped approved_on
approve-IsCapped c identity now l l' capped h day =
    elim (Bool-cases (any (λ r. str_eq r.identity identity) l.approvals)) [
      | inl known ↦
          subst (λ x. approved_on day x.approvals ≤ c.daily_cap) (ok-injective (rw known at h))
            (capped day)
      | inr fresh ↦
          let (g, h1) =
            >>-eq-ok (require (ltb (approved_on now.day l.approvals) _) _) _ (rw fresh at h) in
          let room = ltb→lt _ _ (require-eq-ok _ _ g) in
          let row : Approval = record { identity = identity; day = now.day } in
          let counted = approved_on-append day row l.approvals in
          subst (λ x. approved_on day x.approvals ≤ c.daily_cap) (ok-injective h1)
            (subst (λ k. k ≤ c.daily_cap) (sym counted)
              (added (str_eq now.day day) refl room (capped day)))
    ]
  where
    added :
        (b : Bool)
        → str_eq now.day day ≡ b
        → approved_on now.day l.approvals < c.daily_cap
        → approved_on day l.approvals ≤ c.daily_cap
        → approved_on day l.approvals + (if b then 1 else 0) ≤ c.daily_cap
    added true e room k =
        let same_day = (str_eq_iff now.day day).0 e in
        let room' = subst (λ d. approved_on d l.approvals < c.daily_cap) same_day room in
        omega (arith, room')
    added false e room k = omega (arith, k)

-- An identity that is approved is approved again without effect, on any day and even when the day
-- is full.
pub approve_idem :
    (c : Config) (identity : String) (now later : Now) (l l' : Ledger)
    → approve c identity now l ≡ ok l'
    → approve c identity later l' ≡ ok l'
unfolding approve
approve_idem c identity now later l l' h =
    elim (Bool-cases (any (λ r. str_eq r.identity identity) l.approvals)) [
      | inl known ↦
          let e = ok-injective (rw known at h) in
          again l' (subst (λ x. any (λ r. str_eq r.identity identity) x.approvals ≡ true) e known)
      | inr fresh ↦
          let (_, h1) = >>-eq-ok (require (ltb _ _) _) _ (rw fresh at h) in
          let row : Approval = record { identity = identity; day = now.day } in
          again l' (
            subst (λ x. any (λ r. str_eq r.identity identity) x.approvals ≡ true) (ok-injective h1)
              (found row (str_eq_refl identity) l.approvals))
    ]
  where
    again :
        (x : Ledger)
        → any (λ r. str_eq r.identity identity) x.approvals ≡ true
        → approve c identity later x ≡ ok x
    again x e = rw e refl

    or-true : (b : Bool) → (b || true) ≡ true
    or-true true = refl
    or-true false = refl

    found :
        (row : Approval)
        → str_eq row.identity identity ≡ true
        → (rows : List Approval) → any (λ r. str_eq r.identity identity) (rows ++ row ∷ []) ≡ true
    found row e [] = rw e refl
    found row e (x ∷ rows) = rw (found row e rows) (or-true (str_eq x.identity identity))
