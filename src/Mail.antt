-- ===== src/Mail.antt =====
-- worker/src/parliament_worker/mail_db.py, MySqlMailOutbox, with PrivateSpool.write of mail.py: the
-- queue of messages and their delivery. Each function is the body of a transaction under the locks
-- of its user and message. Parameters: `token_of`, the token of a link (mail.py's token_link, on
-- Python's URL parser); `utc`, the parser of times; `sha256`, the hash of a token; `compose`,
-- MailComposer.compose, on Python's email package. A field or time that raises there is none.
pub mod Delivery
pub mod Worlds
pub mod Settling
pub mod Once
pub mod Running
mod Samples
use parliament.Base.{
  invalid_mail_identity, ltb, leb, ◌==◌, if◌then◌else◌, ltb→lt, lt→ltb, leb→le, le→leb, Bool-cases,
  Option-cases, str_eq_refl, opt_eq, opt_eq_sound, &&-eq-true, ||-eq-false, &&-false, some-eq,
  ok-injective, str_eq_comm, length, take, select, any, find, is_nil, All, length-append,
  length-take-le, All-append, All-map, Error, Result, ok, err, ◌>>=◌, ◌>>◌, require, >>=-eq-ok,
  >>-eq-ok, require-eq-ok, ℕ, zero, suc, ◌+◌, ◌-◌, ◌*◌, ◌≤◌, ◌<◌, min, max, String, ◌≡◌, refl, sym,
  ap, ◌∙◌, subst, ◌≢◌, ◌↔◌, ◌⊎◌, inl, inr, Bool, true, false, ◌&&◌, ◌||◌, not, Option, none, some,
  List, [], ◌∷◌, ◌++◌, map, arith, str_eq, str_eq_iff, spool_conflict,
}
use parliament.Base.Tables.{update_where}
use parliament.Value.{Value, Fields, str, get}

pub data MailStatus : Type 0 where
  queued sending sent cancelled uncertain : MailStatus

-- tracking_user
pub record User : Type 0 where
  pub user_id : String
  pub email : String
  pub email_enabled : Bool
  pub frequency : String
  pub verified_at : Option ℕ
  pub unsubscribe_token : String

-- tracking_mail_outbox; a payload that is no JSON object is none
pub record Mail : Type 0 where
  pub mail_id : String
  pub user_id : String
  pub mail_kind : String
  pub payload : Option Fields
  pub status : MailStatus
  pub created_at : ℕ

-- tracking_login_token
pub record LoginToken : Type 0 where
  pub token_hash : String
  pub user_id : String
  pub expires_at : ℕ
  pub consumed_at : Option ℕ

pub record Identity : Type 0 where
  pub mail_id : String
  pub user_id : String

pub record Message : Type 0 where
  pub mail_id : String
  pub raw : String

pub record Database : Type 0 where
  pub users : List User
  pub mails : List Mail
  pub tokens : List LoginToken

pub record Services : Type 0 where
  pub token_of : Option Value → String → String → Option String
  pub utc : Option Value → Option ℕ
  pub sha256 : String → String
  pub compose : Mail → Option Message
  pub canonical_uuid : String → Option String
  pub base_url : String

-- what a step returns
pub data Outcome : Type 0 where
  was_skipped was_cancelled was_spooled was_claimed was_sent was_uncertain : Outcome

pub same_status : MailStatus → MailStatus → Bool
same_status queued queued = true
same_status sending sending = true
same_status sent sent = true
same_status cancelled cancelled = true
same_status uncertain uncertain = true
same_status _ _ = false

abbrev pub is_mail : Identity → Mail → Bool
is_mail i m = str_eq m.mail_id i.mail_id && str_eq m.user_id i.user_id

-- `_locked`: SELECT … FOR UPDATE of the user and of the message
pub locked_user : Identity → Database → Option User
locked_user i db = find (λ u. str_eq u.user_id i.user_id) db.users

pub locked_mail : Identity → Database → Option Mail
locked_mail i db = find (is_mail i) db.mails

abbrev pub with_status : MailStatus → Mail → Mail
with_status s m = record m { status = s }

-- `_status`
pub set_status : Identity → MailStatus → Database → Database
set_status i s db = record db { mails = update_where (is_mail i) (with_status s) db.mails }

-- `payload.get(key) == text`
pub field_is : String → Fields → String → Bool
field_is key payload text = is_text (get key payload)
  where
    is_text : Option Value → Bool
    is_text (some (str s)) = str_eq s text
    is_text _ = false

abbrev pub is_some {ℓ} : {A : Type ℓ} → Option A → Bool
is_some none = false
is_some (some a) = true

-- `_eligible`, the digest: the recipient's present preferences, and the token of the link
pub digest_eligible : Services → User → Fields → Bool
unfolding field_is
digest_eligible k u payload =
    u.email_enabled
    && is_some u.verified_at
    && (str_eq u.frequency "daily" || str_eq u.frequency "weekly")
    && field_is "frequency" payload u.frequency
    && opt_eq (k.token_of (get "unsubscribeUrl" payload) k.base_url "/unsubscribe")
        (some u.unsubscribe_token)

-- `original and …`: the stored login token is the user's, unused and unexpired
pub login_token_valid : Option LoginToken → User → ℕ → Bool
login_token_valid none u now = false
login_token_valid (some t) u now =
    str_eq t.user_id u.user_id && not (is_some t.consumed_at) && ltb now t.expires_at

abbrev pub after_now : Option ℕ → ℕ → Bool
after_now none now = false
after_now (some expires) now = ltb now expires

pub login_eligible : Services → List LoginToken → User → Fields → ℕ → Option String → Bool
unfolding login_token_valid
login_eligible k tokens u payload now none = false
login_eligible k tokens u payload now (some token) =
    after_now (k.utc (get "expiresAt" payload)) now
    && login_token_valid (find (λ t. str_eq t.token_hash (k.sha256 token)) tokens) u now

pub payload_eligible : Services → List LoginToken → User → Mail → Fields → ℕ → Bool
unfolding digest_eligible login_eligible field_is
payload_eligible k tokens u m payload now =
    field_is "email" payload u.email
    && str_eq m.user_id u.user_id
    && (if str_eq m.mail_kind "digest"
        then digest_eligible k u payload
        else if str_eq m.mail_kind "login"
        then login_eligible k tokens u payload now
            (k.token_of (get "loginUrl" payload) k.base_url "/auth/verify")
        else false)

-- `_eligible`
pub eligible : Services → List LoginToken → Option User → Mail → ℕ → Bool
unfolding payload_eligible
eligible k tokens none m now = false
eligible k tokens (some u) m now = with_payload m.payload
  where
    with_payload : Option Fields → Bool
    with_payload none = false
    with_payload (some payload) = payload_eligible k tokens u m payload now

abbrev pub Spool : Type 0
Spool = List Message

-- PrivateSpool.write: a preview under a canonical UUID is linked once, and may only be written again
-- as it is; `canonical_uuid` is `str(UUID(…))`, none where UUID raises its ValueError
pub spool_write : Services → Message → Spool → Result Spool
spool_write k m spool = do
  require (opt_eq (k.canonical_uuid m.mail_id) (some m.mail_id)) invalid_mail_identity
  linked (find (λ x. str_eq x.mail_id m.mail_id) spool)
  where
    linked : Option Message → Result Spool
    linked none = ok (spool ++ m ∷ [])
    linked (some x) = if str_eq x.raw m.raw then ok spool else err spool_conflict

-- `_prepare`, the eligible message: composed, spooled, and claimed when it is to be sent
pub prepare_message :
    Services
    → Identity
    → Bool
    → Option Message
    → Spool
    → Database
    → Result (Outcome × Spool × Database)
unfolding set_status spool_write
prepare_message k i send none spool db = ok (was_cancelled, spool, set_status i cancelled db)
prepare_message k i send (some m) spool db = do
  spool' ← spool_write k m spool
  ok (if send then (was_claimed, spool', set_status i sending db) else (was_spooled, spool', db))

pub prepare_row :
    Services
    → Identity
    → ℕ
    → Bool
    → Option Mail
    → Spool
    → Database
    → Result (Outcome × Spool × Database)
unfolding same_status eligible locked_user set_status prepare_message
prepare_row k i now send none spool db = ok (was_skipped, spool, db)
prepare_row k i now send (some m) spool db =
    if not (same_status m.status queued)
    then ok (was_skipped, spool, db)
    else if not (eligible k db.tokens (locked_user i db) m now)
    then ok (was_cancelled, spool, set_status i cancelled db)
    else prepare_message k i send (k.compose m) spool db

-- MySqlMailOutbox._prepare
pub prepare :
    Services → Identity → ℕ → Bool → Spool → Database → Result (Outcome × Spool × Database)
unfolding prepare_row locked_mail
prepare k i now send spool db = prepare_row k i now send (locked_mail i db) spool db
