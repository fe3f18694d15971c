-- ===== src/Mail/Settling.antt =====
-- mail_db.py, _prepare and _deliver: what each write leaves of the messages that wait.
use parliament.Base.{
  if◌then◌else◌, Bool-cases, ok-injective, find, ok, >>=-eq-ok, ℕ, ◌+◌, ◌≤◌, String, ◌≡◌, refl, sym,
  subst, inl, inr, Bool, true, false, not, Option, none, some, arith, str_eq, str_eq_iff,
}
use parliament.Mail.{
  Database, Identity, Mail, MailStatus, Message, Outcome, Services, Spool, queued, sending, sent,
  cancelled, uncertain, same_status, is_mail, locked_user, locked_mail, set_status, eligible,
  spool_write, prepare_message, prepare_row,
}
use parliament.Mail.Delivery.{
  Fault, Weather, Attempt, no_fault, begin_fails, request_fails, commit_lost, commit_unseen,
  request_raises, send_message, deliver_row, mark_uncertain, recover, finish, begins, attempt,
  deliver,
}
use parliament.Mail.Worlds.{queued_count, is_claimed, settles, settles_one}

set_status-settles :
    (x : String) (i : Identity) (s : MailStatus) (db : Database)
    → same_status s queued ≡ false
    → queued_count x (set_status i s db).mails ≤ queued_count x db.mails
unfolding set_status
set_status-settles x i s db e = settles x i s db.mails e

-- what a claim takes from the waiting messages
unfoldable pub taken : Outcome → Identity → String → ℕ
unfolding is_claimed
taken o i x = if is_claimed o then (if str_eq i.mail_id x then 1 else 0) else 0

claims_one :
    (x : String) (i : Identity) (m : Mail) (db : Database)
    → find (is_mail i) db.mails ≡ some m
    → same_status m.status queued ≡ true
    → queued_count x (set_status i sending db).mails + (if str_eq i.mail_id x then 1 else 0)
      ≤ queued_count x db.mails
unfolding set_status same_status
claims_one x i m db f q = elim (Bool-cases (str_eq i.mail_id x)) [
  | inl own ↦ rw own (
      subst (λ y. queued_count y (set_status i sending db).mails + 1 ≤ queued_count y db.mails)
        ((str_eq_iff i.mail_id x).0 own) (settles_one i sending m db.mails refl f q))
  | inr other ↦ rw other (let b = settles x i sending db.mails refl in omega (arith, b))
]

prepare_message-taken :
    (x : String) (k : Services) (i : Identity) (send : Bool) (c : Option Message) (m : Mail)
    (spool : Spool) (db : Database) (o : Outcome) (spool' : Spool) (db' : Database)
    → find (is_mail i) db.mails ≡ some m
    → same_status m.status queued ≡ true
    → prepare_message k i send c spool db ≡ ok (o, spool', db')
    → queued_count x db'.mails + taken o i x ≤ queued_count x db.mails
unfolding prepare_message taken same_status
prepare_message-taken x k i send none m spool db o spool' db' f q h =
    subst (λ r. queued_count x r.2.mails + taken r.0 i x ≤ queued_count x db.mails) (ok-injective h)
      (let b = set_status-settles x i cancelled db refl in omega (arith, b))
prepare_message-taken x k i true (some c) m spool db o spool' db' f q h =
    let (s, _, h1) = >>=-eq-ok (spool_write k c spool) _ h in
    subst (λ r. queued_count x r.2.mails + taken r.0 i x ≤ queued_count x db.mails)
      (ok-injective h1) (claims_one x i m db f q)
prepare_message-taken x k i false (some c) m spool db o spool' db' f q h =
    let (s, _, h1) = >>=-eq-ok (spool_write k c spool) _ h in
    subst (λ r. queued_count x r.2.mails + taken r.0 i x ≤ queued_count x db.mails)
      (ok-injective h1) (omega arith)

not-false : (b : Bool) → not b ≡ false → b ≡ true
not-false true h = refl
not-false false h = sym h

pub prepare_row-taken :
    (x : String) (k : Services) (i : Identity) (now : ℕ) (send : Bool) (row : Option Mail)
    (spool : Spool) (db : Database) (o : Outcome) (spool' : Spool) (db' : Database)
    → find (is_mail i) db.mails ≡ row
    → prepare_row k i now send row spool db ≡ ok (o, spool', db')
    → queued_count x db'.mails + taken o i x ≤ queued_count x db.mails
unfolding prepare_row taken same_status
prepare_row-taken x k i now send none spool db o spool' db' f h =
    subst (λ r. queued_count x r.2.mails + taken r.0 i x ≤ queued_count x db.mails) (ok-injective h)
      (omega arith)
prepare_row-taken x k i now send (some m) spool db o spool' db' f h =
    elim (Bool-cases (not (same_status m.status queued))) [
      | inl passed ↦
          subst (λ r. queued_count x r.2.mails + taken r.0 i x ≤ queued_count x db.mails)
            (ok-injective (rw passed at h)) (omega arith)
      | inr waiting ↦ elim (Bool-cases (not (eligible k db.tokens (locked_user i db) m now))) [
        | inl barred ↦
            subst (λ r. queued_count x r.2.mails + taken r.0 i x ≤ queued_count x db.mails)
              (ok-injective (rw (waiting, barred) at h))
              (let b = set_status-settles x i cancelled db refl in omega (arith, b))
        | inr fit ↦
            prepare_message-taken x k i send (k.compose m) m spool db o spool' db' f
              (not-false _ waiting) (rw (waiting, fit) at h)
      ]
    ]

-- no write of a delivery makes a message wait again
unfoldable pub Settled : Database → Database → Type 0
Settled db db' = (x : String) → queued_count x db'.mails ≤ queued_count x db.mails

send_message-Settled :
    (i : Identity) (f : Fault) (c : Option Message) (db : Database)
    → Settled db (send_message i f c db).database
unfolding send_message Settled same_status
send_message-Settled i f none db x = omega arith
send_message-Settled i f (some m) db x = elim (Bool-cases (request_raises f)) [
  | inl raises ↦ rw raises (omega arith)
  | inr returns ↦ rw returns (set_status-settles x i sent db refl)
]

deliver_row-Settled :
    (k : Services) (i : Identity) (now : ℕ) (f : Fault) (row : Option Mail) (db : Database)
    → Settled db (deliver_row k i now f row db).database
unfolding deliver_row Settled same_status
deliver_row-Settled k i now f none db x = omega arith
deliver_row-Settled k i now f (some m) db x =
    elim (Bool-cases (not (same_status m.status sending))) [
      | inl passed ↦ rw passed (omega arith)
      | inr claimed ↦ elim (Bool-cases (not (eligible k db.tokens (locked_user i db) m now))) [
        | inl barred ↦ rw (claimed, barred) (set_status-settles x i cancelled db refl)
        | inr fit ↦ rw (claimed, fit) (send_message-Settled i f (k.compose m) db x)
      ]
    ]

recover-Settled :
    (i : Identity) (recovers : Bool) (db : Database) → Settled db (recover i recovers db)
unfolding recover Settled
recover-Settled i false db x = omega arith
recover-Settled i true db x = marked (locked_mail i db)
  where
    marked :
        (row : Option Mail)
        → queued_count x (mark_uncertain i row db).mails ≤ queued_count x db.mails
    marked none = unfold mark_uncertain in omega arith
    marked (some m) =
        unfold mark_uncertain same_status in
        elim (Bool-cases (same_status m.status sending)) [
          | inl stuck ↦ rw stuck (set_status-settles x i uncertain db refl)
          | inr other ↦ rw other (omega arith)
        ]

finish-Settled :
    (i : Identity) (recovers : Bool) (f : Fault) (o : Option Outcome) (db : Database) (a : Attempt)
    → Settled db a.database
    → Settled db (finish i recovers f o db a).1
unfolding finish Settled
finish-Settled i recovers f none db a h x = recover-Settled i recovers db x
finish-Settled i recovers commit_lost (some o) db a h x = recover-Settled i recovers db x
finish-Settled i recovers commit_unseen (some o) db a h x =
    let b = recover-Settled i recovers a.database x in let c = h x in omega (arith, b, c)
finish-Settled i recovers no_fault (some o) db a h x = h x
finish-Settled i recovers begin_fails (some o) db a h x = h x
finish-Settled i recovers request_fails (some o) db a h x = h x

attempt-Settled :
    (k : Services) (i : Identity) (w : Weather) (db : Database)
    → Settled db (attempt k i w db).database
unfolding attempt Settled
attempt-Settled k i w db x = elim (Bool-cases (begins w.fault)) [
  | inl good ↦ rw good (deliver_row-Settled k i w.delivered_at w.fault (locked_mail i db) db x)
  | inr bad ↦ rw bad (omega arith)
]

pub deliver-Settled :
    (k : Services) (i : Identity) (w : Weather) (db : Database) → Settled db (deliver k i w db).1
unfolding deliver
deliver-Settled k i w db =
    finish-Settled i w.recovers w.fault (attempt k i w db).outcome db (attempt k i w db)
      (attempt-Settled k i w db)
