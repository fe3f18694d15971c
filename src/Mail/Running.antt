-- ===== src/Mail/Running.antt =====
-- mail_db.py, run: a run as a sequence of transactions, and the preview.
use parliament.Base.{
  Bool-cases, ok-injective, ok, >>=-eq-ok, ℕ, ◌+◌, ◌≤◌, String, ◌≡◌, refl, sym, ap, ◌∙◌, subst, inl,
  inr, Bool, false, not, Option, none, some, List, [], ◌∷◌, arith,
}
use parliament.Mail.{
  Database, Identity, Mail, Message, Outcome, Services, Spool, queued, was_skipped, was_cancelled,
  was_spooled, was_claimed, was_sent, was_uncertain, same_status, locked_user, locked_mail,
  eligible, spool_write, prepare_message, prepare_row, prepare,
}
use parliament.Mail.Delivery.{Weather, Done, deliver_claimed, run_loop, run, pending_mail}
use parliament.Mail.Worlds.{
  World, Reach, IsOnce, preparing, delivering, here, next, queued_count, claim_count, request_count,
  is_claimed,
}
use parliament.Mail.Once.{Reach-IsOnce}

-- what a run has done, as a world in which it is the only worker
abbrev world : Done → World
world d = record { database = d.database; spool = d.spool; claims = []; requests = d.requests }

item-Reach :
    (k : Services) (i : Identity) (w : Weather) (send : Bool) (d : Done) (o : Outcome)
    (spool : Spool) (db : Database) (start : World)
    → Reach k start (world d)
    → prepare k i w.prepared_at send d.spool d.database ≡ ok (o, spool, db)
    → Reach k start (world (deliver_claimed k i w o (record d { spool = spool; database = db })))
unfolding deliver_claimed is_claimed
item-Reach k i w send d was_claimed spool db start r h =
    next (next r (preparing i w.prepared_at send was_claimed spool db h))
      (delivering i w [] [] refl)
item-Reach k i w send d was_skipped spool db start r h =
    next r (preparing i w.prepared_at send was_skipped spool db h)
item-Reach k i w send d was_cancelled spool db start r h =
    next r (preparing i w.prepared_at send was_cancelled spool db h)
item-Reach k i w send d was_spooled spool db start r h =
    next r (preparing i w.prepared_at send was_spooled spool db h)
item-Reach k i w send d was_sent spool db start r h =
    next r (preparing i w.prepared_at send was_sent spool db h)
item-Reach k i w send d was_uncertain spool db start r h =
    next r (preparing i w.prepared_at send was_uncertain spool db h)

run_loop-Reach :
    (k : Services) (weather : Identity → Weather) (send : Bool) (is : List Identity) (d d' : Done)
    (start : World)
    → Reach k start (world d)
    → run_loop k weather send is d ≡ ok d'
    → Reach k start (world d')
unfolding run_loop
run_loop-Reach k weather send [] d d' start r h =
    subst (λ x. Reach k start (world x)) (ok-injective h) r
run_loop-Reach k weather send (i ∷ is) d d' start r h =
    let ((o, spool, db), g, h1) =
      >>=-eq-ok (prepare k i (weather i).prepared_at send d.spool d.database) _ h in
    run_loop-Reach k weather send is _ d' start
      (item-Reach k i (weather i) send d o spool db start r g) h1

no_claims : (x : String) → claim_count x [] ≡ 0
unfolding claim_count
no_claims x = refl

-- A run over a queue where no message waits in two rows requests each message at most once, and one
-- that it has requested waits no more, so that a later run passes it over.
pub run-requests_once :
    (k : Services) (weather : Identity → Weather) (send : Bool) (limit : ℕ) (spool : Spool)
    (db : Database) (d : Done)
    → ((x : String) → queued_count x db.mails ≤ 1)
    → run k weather send limit spool db ≡ ok d
    → (x : String) → queued_count x d.database.mails + request_count x d.requests ≤ 1
unfolding run
run-requests_once k weather send limit spool db d single h x =
    let (is, _, h1) = >>=-eq-ok (pending_mail limit db) _ h in
    let start = world (record { outcomes = []; requests = []; spool = spool; database = db }) in
    let r = run_loop-Reach k weather send is _ d start here h1 in
    let e = Reach-IsOnce k start (world d) alone r x in without e
  where
    alone : IsOnce (world (record { outcomes = []; requests = []; spool = spool; database = db }))
    alone = unfold IsOnce claim_count request_count in λ y. (let q = single y in omega (arith, q))

    without :
        queued_count x d.database.mails + claim_count x [] + request_count x d.requests ≤ 1
        → queued_count x d.database.mails + request_count x d.requests ≤ 1
    without e = let z = no_claims x in omega (arith, e, z)

previewed-unclaimed :
    (k : Services) (i : Identity) (now : ℕ) (spool : Spool) (db : Database) (o : Outcome)
    (spool' : Spool) (db' : Database) (row : Option Mail)
    → prepare_row k i now false row spool db ≡ ok (o, spool', db')
    → is_claimed o ≡ false
unfolding prepare_row is_claimed prepare_message
previewed-unclaimed k i now spool db o spool' db' none h =
    subst (λ r. is_claimed r.0 ≡ false) (ok-injective h) refl
previewed-unclaimed k i now spool db o spool' db' (some m) h =
    elim (Bool-cases (not (same_status m.status queued))) [
      | inl passed ↦ subst (λ r. is_claimed r.0 ≡ false) (ok-injective (rw passed at h)) refl
      | inr waiting ↦ elim (Bool-cases (not (eligible k db.tokens (locked_user i db) m now))) [
        | inl barred ↦
            subst (λ r. is_claimed r.0 ≡ false) (ok-injective (rw (waiting, barred) at h)) refl
        | inr fit ↦ composed (k.compose m) (rw (waiting, fit) at h)
      ]
    ]
  where
    composed :
        (c : Option Message)
        → prepare_message k i false c spool db ≡ ok (o, spool', db')
        → is_claimed o ≡ false
    composed none e = subst (λ r. is_claimed r.0 ≡ false) (ok-injective e) refl
    composed (some c) e =
        let (_, _, e1) = >>=-eq-ok (spool_write k c spool) _ e in
        subst (λ r. is_claimed r.0 ≡ false) (ok-injective e1) refl

not_delivered :
    (k : Services) (i : Identity) (w : Weather) (o : Outcome) (d : Done)
    → is_claimed o ≡ false
    → (deliver_claimed k i w o d).requests ≡ d.requests
unfolding is_claimed deliver_claimed
not_delivered k i w was_claimed d h = absurd (let h' = h in cc)
not_delivered k i w was_skipped d h = refl
not_delivered k i w was_cancelled d h = refl
not_delivered k i w was_spooled d h = refl
not_delivered k i w was_sent d h = refl
not_delivered k i w was_uncertain d h = refl

preview_loop :
    (k : Services) (weather : Identity → Weather) (is : List Identity) (d d' : Done)
    → run_loop k weather false is d ≡ ok d'
    → d'.requests ≡ d.requests
unfolding run_loop prepare
preview_loop k weather [] d d' h = sym (ap (λ x. x.requests) (ok-injective h))
preview_loop k weather (i ∷ is) d d' h =
    let ((o, spool, db), g, h1) =
      >>=-eq-ok (prepare k i (weather i).prepared_at false d.spool d.database) _ h in
    let free =
      previewed-unclaimed k i (weather i).prepared_at d.spool d.database o spool db
        (locked_mail i d.database) g in
    let d1 = record d { spool = spool; database = db } in
    preview_loop k weather is _ d' h1 ∙ not_delivered k i (weather i) o d1 free

-- A run without a mailer makes no request, whatever is queued.
pub run-preview :
    (k : Services) (weather : Identity → Weather) (limit : ℕ) (spool : Spool) (db : Database)
    (d : Done)
    → run k weather false limit spool db ≡ ok d
    → d.requests ≡ []
unfolding run
run-preview k weather limit spool db d h =
    let (is, _, h1) = >>=-eq-ok (pending_mail limit db) _ h in preview_loop k weather is _ d h1
