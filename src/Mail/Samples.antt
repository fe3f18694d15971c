-- ===== src/Mail/Samples.antt =====
-- A queue with one digest, run and previewed, and the theorems at these runs.
use parliament.Base.{ok, ◌+◌, ◌≤◌, String, ◌≡◌, refl, true, false, none, some, [], ◌∷◌, arith}
use parliament.Value.{Fields, str, field, end, get}
use parliament.Mail.{
  Database, Identity, Mail, Message, Services, User, queued, sending, sent, was_sent, was_spooled,
  same_status, with_status, locked_user, locked_mail, set_status, field_is, digest_eligible,
  login_token_valid, login_eligible, payload_eligible, eligible, spool_write, prepare_message,
  prepare_row, prepare, was_claimed,
}
use parliament.Mail.Delivery.{
  Weather, Done, no_fault, request_fails, send_message, deliver_row, mark_uncertain, recover,
  finish, attempt, deliver, deliver_claimed, run_loop, run, pending_mail,
}
use parliament.Mail.Worlds.{
  World, Reach, IsOnce, preparing, delivering, here, next, queued_count, claim_count, request_count,
  waits, is_claimed,
}
use parliament.Mail.Once.{Reach-IsOnce}
use parliament.Mail.Running.{run-requests_once}

abbrev payload : Fields
payload =
    field "email" (str "a@b.kr")
      (field "frequency" (str "daily") (field "unsubscribeUrl" (str "u") end))

abbrev user : User
user = record {
  user_id = "u";
  email = "a@b.kr";
  email_enabled = true;
  frequency = "daily";
  verified_at = some 1;
  unsubscribe_token = "t";
}

abbrev digest : Mail
digest = record {
  mail_id = "m";
  user_id = "u";
  mail_kind = "digest";
  payload = some payload;
  status = queued;
  created_at = 3;
}

abbrev services : Services
services = record {
  token_of = λ v base path. some "t";
  utc = λ v. none;
  sha256 = λ s. s;
  compose = λ m. some (record { mail_id = m.mail_id; raw = "raw" });
  canonical_uuid = λ s. some s;
  base_url = "https://b.kr";
}

abbrev preview : Message
preview = record { mail_id = "m"; raw = "raw" }

abbrev database : Database
database = record { users = user ∷ []; mails = digest ∷ []; tokens = [] }

abbrev identity : Identity
identity = record { mail_id = "m"; user_id = "u" }

abbrev calm : Identity → Weather
calm i = record { fault = no_fault; recovers = true; prepared_at = 5; delivered_at = 6 }

-- the request raises: was the message sent?
abbrev stormy : Weather
stormy = record { fault = request_fails; recovers = true; prepared_at = 5; delivered_at = 6 }

code : Unit {0}
unfolding get same_status locked_user locked_mail set_status field_is digest_eligible
    login_token_valid login_eligible payload_eligible eligible spool_write prepare_message
    prepare_row prepare send_message deliver_row mark_uncertain recover finish attempt deliver
    deliver_claimed run_loop run pending_mail is_claimed
code = tt

abbrev sent_mail : Database
sent_mail = record database { mails = with_status sent digest ∷ [] }

abbrev sent_run : Done
sent_run = record {
  outcomes = was_sent ∷ [];
  requests = "m" ∷ [];
  spool = preview ∷ [];
  database = sent_mail;
}

sending_run : run services calm true 20 [] database ≡ ok sent_run
unfolding code
sending_run = refl

abbrev spooled_run : Done
spooled_run = record {
  outcomes = was_spooled ∷ [];
  requests = [];
  spool = preview ∷ [];
  database = database;
}

preview_run : run services calm false 20 [] database ≡ ok spooled_run
unfolding code
preview_run = refl

single : (x : String) → queued_count x database.mails ≤ 1
unfolding queued_count waits
single x = ground arith

run-requests_once_example :
    queued_count "m" sent_mail.mails + request_count "m" sent_run.requests ≤ 1
run-requests_once_example =
    run-requests_once services calm true 20 [] database sent_run single sending_run "m"

abbrev start : World
start = record { database = database; spool = []; claims = []; requests = [] }

abbrev claimed : Database
claimed = record database { mails = with_status sending digest ∷ [] }

abbrev after : World
after = record {
  database = (deliver services identity stormy claimed).1;
  spool = preview ∷ [];
  claims = [];
  requests = "m" ∷ [];
}

prepare_run : prepare services identity 5 true [] database ≡ ok (was_claimed, preview ∷ [], claimed)
unfolding code
prepare_run = refl

steps : Reach services start after
unfolding code
steps =
    next (next here (preparing identity 5 true was_claimed (preview ∷ []) claimed prepare_run))
      (delivering identity stormy [] [] refl)

start-IsOnce : IsOnce start
unfolding IsOnce queued_count waits claim_count request_count
start-IsOnce x = ground arith

Reach-IsOnce_example :
    queued_count "m" after.database.mails
      + claim_count "m" after.claims
      + request_count "m" after.requests
    ≤ 1
Reach-IsOnce_example = Reach-IsOnce services start after start-IsOnce steps "m"
