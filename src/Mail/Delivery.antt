-- ===== src/Mail/Delivery.antt =====
-- mail_db.py, MySqlMailOutbox._deliver, pending and run: one request for each claimed message, and
-- what is left where the request or a transaction fails.
use parliament.Value.Objects.{text_lt}
use parliament.Base.{
  ltb, leb, ◌==◌, if◌then◌else◌, take, select, Result, ok, ◌>>=◌, ◌>>◌, require, ℕ, String, Bool,
  true, false, ◌&&◌, ◌||◌, not, Option, none, some, List, [], ◌∷◌, ◌++◌, map, invalid_mail_batch,
}
use parliament.Mail.{
  Database, Identity, Mail, Message, Outcome, Services, Spool, queued, sending, sent, cancelled,
  uncertain, was_skipped, was_cancelled, was_claimed, was_sent, was_uncertain, same_status,
  locked_user, locked_mail, set_status, eligible, prepare,
}

-- How a delivery goes: whether it raises before the request, at it, or at the commit after it, which
-- may or may not have taken effect.
pub data Fault : Type 0 where
  no_fault begin_fails request_fails commit_lost commit_unseen : Fault

pub record Weather : Type 0 where
  pub fault : Fault
  pub recovers : Bool
  pub prepared_at : ℕ
  pub delivered_at : ℕ

-- what the body of the transaction did: its result, none where it raised, its writes, and whether it
-- made the request
pub record Attempt : Type 0 where
  pub outcome : Option Outcome
  pub database : Database
  pub requested : Bool

abbrev pub request_raises : Fault → Bool
request_raises request_fails = true
request_raises _ = false

unfoldable pub send_message : Identity → Fault → Option Message → Database → Attempt
unfolding set_status
send_message i f none db = record { outcome = none; database = db; requested = false }
send_message i f (some m) db =
    if request_raises f
    then record { outcome = none; database = db; requested = true }
    else record { outcome = some was_sent; database = set_status i sent db; requested = true }

unfoldable pub deliver_row : Services → Identity → ℕ → Fault → Option Mail → Database → Attempt
unfolding send_message same_status eligible locked_user set_status
deliver_row k i now f none db = record {
  outcome = some was_skipped;
  database = db;
  requested = false;
}
deliver_row k i now f (some m) db =
    if not (same_status m.status sending)
    then record { outcome = some was_skipped; database = db; requested = false }
    else if not (eligible k db.tokens (locked_user i db) m now)
    then record {
      outcome = some was_cancelled;
      database = set_status i cancelled db;
      requested = false;
    }
    else send_message i f (k.compose m) db

-- the second transaction, after an exception: a message that is still being sent is uncertain
unfoldable pub mark_uncertain : Identity → Option Mail → Database → Database
unfolding same_status set_status
mark_uncertain i none db = db
mark_uncertain i (some m) db =
    if same_status m.status sending then set_status i uncertain db else db

unfoldable pub recover : Identity → Bool → Database → Database
unfolding mark_uncertain locked_mail
recover i false db = db
recover i true db = mark_uncertain i (locked_mail i db) db

-- the end of the transaction: an exception rolls its writes back, unless the commit was only unseen
unfoldable pub finish :
    Identity → Bool → Fault → Option Outcome → Database → Attempt → Outcome × Database
unfolding recover
finish i recovers f none db a = (was_uncertain, recover i recovers db)
finish i recovers commit_lost (some o) db a = (was_uncertain, recover i recovers db)
finish i recovers commit_unseen (some o) db a = (was_uncertain, recover i recovers a.database)
finish i recovers _ (some o) db a = (o, a.database)

abbrev pub begins : Fault → Bool
begins begin_fails = false
begins _ = true

unfoldable pub attempt : Services → Identity → Weather → Database → Attempt
unfolding deliver_row locked_mail
attempt k i w db =
    if begins w.fault
    then deliver_row k i w.delivered_at w.fault (locked_mail i db) db
    else record { outcome = none; database = db; requested = false }

-- MySqlMailOutbox._deliver: its result, the database, and whether a request was made
unfoldable pub deliver : Services → Identity → Weather → Database → Outcome × Database × Bool
unfolding attempt finish
deliver k i w db =
    let a = attempt k i w db in
    let (o, db') = finish i w.recovers w.fault a.outcome db a in (o, db', a.requested)

abbrev earlier : Mail → Mail → Bool
earlier m n =
    ltb m.created_at n.created_at || (m.created_at == n.created_at && text_lt m.mail_id n.mail_id)

insert_mail : Mail → List Mail → List Mail
insert_mail m [] = m ∷ []
insert_mail m (n ∷ ms) = if earlier n m then n ∷ insert_mail m ms else m ∷ n ∷ ms

order_mails : List Mail → List Mail
unfolding insert_mail
order_mails [] = []
order_mails (m ∷ ms) = insert_mail m (order_mails ms)

-- MySqlMailOutbox.pending: the identities of the oldest queued messages
unfoldable pub pending_mail : ℕ → Database → Result (List Identity)
unfolding order_mails same_status
pending_mail limit db = do
  require (leb 1 limit && leb limit 100) invalid_mail_batch
  ok (
      map (λ m. record { mail_id = m.mail_id; user_id = m.user_id })
        (take limit (order_mails (select (λ m. same_status m.status queued) db.mails))))

-- what a run has done: the results but the skipped ones, and the messages requested
pub record Done : Type 0 where
  pub outcomes : List Outcome
  pub requests : List String
  pub spool : Spool
  pub database : Database

abbrev pub note : Outcome → List Outcome → List Outcome
note was_skipped os = os
note o os = os ++ o ∷ []

-- `if result == "sending": result = self._deliver(…)`
unfoldable pub deliver_claimed : Services → Identity → Weather → Outcome → Done → Done
unfolding deliver
deliver_claimed k i w was_claimed d =
    let (o, db, requested) = deliver k i w d.database in
    record d {
      outcomes = note o d.outcomes;
      requests = d.requests ++ (if requested then i.mail_id ∷ [] else []);
      database = db;
    }
deliver_claimed k i w o d = record d { outcomes = note o d.outcomes }

unfoldable pub run_loop :
    Services → (Identity → Weather) → Bool → List Identity → Done → Result Done
unfolding deliver_claimed prepare
run_loop k weather send [] d = ok d
run_loop k weather send (i ∷ rest) d = do
  (o, spool, db) ← prepare k i (weather i).prepared_at send d.spool d.database
  run_loop k weather send rest
      (deliver_claimed k i (weather i) o (record d { spool = spool; database = db }))

-- MySqlMailOutbox.run; `send` where a mailer is given
unfoldable pub run : Services → (Identity → Weather) → Bool → ℕ → Spool → Database → Result Done
unfolding run_loop pending_mail
run k weather send limit spool db = do
  identities ← pending_mail limit db
  run_loop k weather send identities
      (record { outcomes = []; requests = []; spool = spool; database = db })
