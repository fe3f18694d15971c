-- ===== src/Mail/Worlds.antt =====
-- mail_db.py: what several workers do to the queue, one transaction after the other, and the messages
-- that wait, are claimed or are requested.
use parliament.Base.{
  if◌then◌else◌, Bool-cases, &&-eq-true, &&-false, some-eq, find, ok, ℕ, ◌+◌, ◌≤◌, String, ◌≡◌, sym,
  subst, inl, inr, Bool, true, false, ◌&&◌, some, List, [], ◌∷◌, ◌++◌, arith, str_eq,
}
use parliament.Base.Tables.{update_where}
use parliament.Mail.{
  Database, Identity, Mail, MailStatus, Outcome, Services, Spool, User, LoginToken, queued,
  was_claimed, same_status, is_mail, with_status, prepare,
}
use parliament.Mail.Delivery.{Weather, deliver}

-- is this the message, still to be claimed?
unfoldable pub waits : String → Mail → Bool
unfolding same_status
waits x m = str_eq m.mail_id x && same_status m.status queued

-- how many rows of a message wait to be claimed
unfoldable pub queued_count : String → List Mail → ℕ
unfolding waits
queued_count x [] = 0
queued_count x (m ∷ ms) = (if waits x m then 1 else 0) + queued_count x ms

unfoldable pub claim_count : String → List Identity → ℕ
claim_count x [] = 0
claim_count x (i ∷ is) = (if str_eq i.mail_id x then 1 else 0) + claim_count x is

unfoldable pub request_count : String → List String → ℕ
request_count x [] = 0
request_count x (y ∷ ys) = (if str_eq y x then 1 else 0) + request_count x ys

unfoldable pub is_claimed : Outcome → Bool
is_claimed was_claimed = true
is_claimed _ = false

-- the database, the spool, the workers that have claimed a message and not delivered it yet, and the
-- requests made so far
pub record World : Type 0 where
  pub database : Database
  pub spool : Spool
  pub claims : List Identity
  pub requests : List String

-- One transaction of some worker, or of the service that the workers run beside: it may change users
-- and login tokens as it likes, and adds messages under ids that are new.
pub data Step (k : Services) : World → World → Type 0 where
  preparing :
      {w : World} (i : Identity) (now : ℕ) (send : Bool) (o : Outcome) (spool : Spool)
      (db : Database)
      → prepare k i now send w.spool w.database ≡ ok (o, spool, db)
      → Step k w (record w {
        database = db;
        spool = spool;
        claims = (if is_claimed o then i ∷ [] else []) ++ w.claims;
      })
  delivering :
      {w : World} (i : Identity) (weather : Weather) (before after : List Identity)
      → w.claims ≡ before ++ i ∷ after
      → Step k w (record w {
        database = (deliver k i weather w.database).1;
        claims = before ++ after;
        requests =
            w.requests ++ (if (deliver k i weather w.database).2 then i.mail_id ∷ [] else []);
      })
  changing :
      {w : World} (users : List User) (tokens : List LoginToken)
      → Step k w (record w { database = record w.database { users = users; tokens = tokens } })
  adding :
      {w : World} (m : Mail)
      → queued_count m.mail_id w.database.mails
          + claim_count m.mail_id w.claims
          + request_count m.mail_id w.requests
        ≡ 0
      → Step k w (record w { database = record w.database { mails = w.database.mails ++ m ∷ [] } })

pub data Reach (k : Services) (w : World) : World → Type 0 where
  here : Reach k w w
  next : {v u : World} → Reach k w v → Step k v u → Reach k w u

-- Each message waits, is claimed by one worker, or has been requested, at most one of these and once.
unfoldable pub IsOnce : World → Type 0
IsOnce w =
    (x : String)
    → queued_count x w.database.mails + claim_count x w.claims + request_count x w.requests ≤ 1

row_settles :
    (x : String) (i : Identity) (s : MailStatus) (m : Mail)
    → same_status s queued ≡ false
    → (if waits x (if is_mail i m then with_status s m else m) then 1 else 0)
      ≤ (if waits x m then 1 else 0)
unfolding waits
row_settles x i s m e = elim (Bool-cases (is_mail i m)) [
  | inl hit ↦ rw (hit, e, &&-false (str_eq m.mail_id x)) (omega arith)
  | inr miss ↦ rw miss (omega arith)
]

pub settles :
    (x : String) (i : Identity) (s : MailStatus) (ms : List Mail)
    → same_status s queued ≡ false
    → queued_count x (update_where (is_mail i) (with_status s) ms) ≤ queued_count x ms
unfolding queued_count
settles x i s [] e = omega arith
settles x i s (m ∷ ms) e =
    let a = row_settles x i s m e in let b = settles x i s ms e in omega (arith, a, b)

-- A locked message that waits stops waiting when its status is written.
pub settles_one :
    (i : Identity) (s : MailStatus) (m : Mail) (ms : List Mail)
    → same_status s queued ≡ false
    → find (is_mail i) ms ≡ some m
    → same_status m.status queued ≡ true
    → queued_count i.mail_id (update_where (is_mail i) (with_status s) ms) + 1
      ≤ queued_count i.mail_id ms
unfolding queued_count waits
settles_one i s m [] e f q = absurd (let f' = f in cc)
settles_one i s m (n ∷ ms) e f q = elim (Bool-cases (is_mail i n)) [
  | inl hit ↦
      let same_row : n ≡ m = some-eq (rw hit at f) in
      let q' = subst (λ y. same_status y.status queued ≡ true) (sym same_row) q in
      let (id, _) = &&-eq-true (str_eq n.mail_id i.mail_id) _ hit in
      let b = settles i.mail_id i s ms e in rw (hit, id, q', e) (omega (arith, b))
  | inr miss ↦ let b = settles_one i s m ms e (rw miss at f) q in rw miss (omega (arith, b))
]
