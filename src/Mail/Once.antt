-- ===== src/Mail/Once.antt =====
-- mail_db.py: a message is requested at most once, whatever fails and however workers interleave.
use parliament.Base.{
  if◌then◌else◌, Bool-cases, ok, ℕ, ◌+◌, ◌≤◌, String, ◌≡◌, refl, subst, inl, inr, Bool, true, false,
  List, [], ◌∷◌, ◌++◌, arith, str_eq, str_eq_iff,
}
use parliament.Mail.{
  Database, Identity, Mail, Outcome, Services, Spool, queued, same_status, locked_mail, prepare,
}
use parliament.Mail.Delivery.{Weather, deliver}
use parliament.Mail.Worlds.{
  World, Step, Reach, IsOnce, preparing, delivering, changing, adding, here, next, queued_count,
  claim_count, request_count, is_claimed, waits,
}
use parliament.Mail.Settling.{prepare_row-taken, deliver-Settled, taken, Settled}

prepare-taken :
    (x : String) (k : Services) (i : Identity) (now : ℕ) (send : Bool) (spool : Spool)
    (db : Database) (o : Outcome) (spool' : Spool) (db' : Database)
    → prepare k i now send spool db ≡ ok (o, spool', db')
    → queued_count x db'.mails + taken o i x ≤ queued_count x db.mails
unfolding prepare locked_mail
prepare-taken x k i now send spool db o spool' db' h =
    prepare_row-taken x k i now send (locked_mail i db) spool db o spool' db' refl h

claims-taken :
    (x : String) (o : Outcome) (i : Identity) (claims : List Identity)
    → claim_count x ((if is_claimed o then i ∷ [] else []) ++ claims)
      ≡ taken o i x + claim_count x claims
unfolding taken claim_count
claims-taken x o i claims = row (is_claimed o)
  where
    row :
        (b : Bool)
        → claim_count x ((if b then i ∷ [] else []) ++ claims)
          ≡ (if b then (if str_eq i.mail_id x then 1 else 0) else 0) + claim_count x claims
    row true = refl
    row false = omega arith

claims-without :
    (x : String) (i : Identity) (before after : List Identity)
    → claim_count x (before ++ i ∷ after)
      ≡ (if str_eq i.mail_id x then 1 else 0) + claim_count x (before ++ after)
unfolding claim_count
claims-without x i [] after = refl
claims-without x i (j ∷ before) after = omega (arith, claims-without x i before after)

requests-snoc :
    (x : String) (i : Identity) (b : Bool) (requests : List String)
    → request_count x (requests ++ (if b then i.mail_id ∷ [] else []))
      ≤ request_count x requests + (if str_eq i.mail_id x then 1 else 0)
unfolding request_count
requests-snoc x i true [] = omega arith
requests-snoc x i false [] = omega arith
requests-snoc x i b (y ∷ requests) = let h = requests-snoc x i b requests in omega (arith, h)

queued-snoc :
    (x : String) (m : Mail) (ms : List Mail)
    → queued_count x (ms ++ m ∷ []) ≡ queued_count x ms + (if waits x m then 1 else 0)
unfolding queued_count
queued-snoc x m [] = omega arith
queued-snoc x m (n ∷ ms) = let h = queued-snoc x m ms in omega (arith, h)

new_message :
    (x : String) (m : Mail) (n : ℕ)
    → (str_eq m.mail_id x ≡ true → n ≡ 0)
    → n ≤ 1
    → n + (if waits x m then 1 else 0) ≤ 1
unfolding waits
new_message x m n h k = elim (Bool-cases (str_eq m.mail_id x)) [
  | inl own ↦ let z = h own in rw own (row (same_status m.status queued) z)
  | inr other ↦ rw other (omega (arith, k))
]
  where
    row : (b : Bool) → n ≡ 0 → n + (if b then 1 else 0) ≤ 1
    row true z = omega (arith, z)
    row false z = omega (arith, z)

Step-IsOnce : (k : Services) (w w' : World) → Step k w w' → IsOnce w → IsOnce w'
unfolding IsOnce
Step-IsOnce k w w' (preparing i now send o spool db h) once x =
    let a = prepare-taken x k i now send w.spool w.database o spool db h in
    let b = claims-taken x o i w.claims in let c = once x in omega (arith, a, b, c)
Step-IsOnce k w w' (delivering i weather before after e) once x =
    let a = settled i weather x in
    let b = claims-without x i before after in
    let c = requests-snoc x i (deliver k i weather w.database).2 w.requests in
    let d =
      subst
        (λ l. queued_count x w.database.mails + claim_count x l + request_count x w.requests ≤ 1) e
        (once x) in
    omega (arith, a, b, c, d)
  where
    settled :
        (i : Identity) (weather : Weather) (x : String)
        → queued_count x (deliver k i weather w.database).1.mails ≤ queued_count x w.database.mails
    settled i weather x = unfold Settled in deliver-Settled k i weather w.database x
Step-IsOnce k w w' (changing users tokens) once x = once x
Step-IsOnce k w w' (adding m fresh) once x =
    let a = queued-snoc x m w.database.mails in
    let b =
      new_message x m
        (queued_count x w.database.mails + claim_count x w.claims + request_count x w.requests)
        (λ own.
          subst
            (λ y.
              queued_count y w.database.mails + claim_count y w.claims + request_count y w.requests
              ≡ 0)
            ((str_eq_iff m.mail_id x).0 own) fresh)
        (once x) in
    omega (arith, a, b)

-- Whatever the workers and the service do, in any order and with any failure: if at first each
-- message waits, is claimed or has been requested at most once in all, then so it stays, and a
-- message that has been requested neither waits nor is claimed again.
pub Reach-IsOnce :
    (k : Services) (w w' : World)
    → IsOnce w
    → Reach k w w'
    → (x : String)
    → queued_count x w'.database.mails + claim_count x w'.claims + request_count x w'.requests ≤ 1
Reach-IsOnce k w w' once r x = kept r x
  where
    along : {v : World} → Reach k w v → IsOnce v
    along here = once
    along (next {v = v} {u = u} q s) = Step-IsOnce k v u s (along q)

    kept :
        {v : World}
        → Reach k w v
        → (x : String)
        → queued_count x v.database.mails + claim_count x v.claims + request_count x v.requests ≤ 1
    kept q x = unfold IsOnce in along q x
