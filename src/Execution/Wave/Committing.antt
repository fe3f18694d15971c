-- ===== src/Execution/Wave/Committing.antt =====
-- execution.py, _prepare: the table that it leaves is the one before, or what the changes of its loop
-- made of it.
use parliament.Base.{
  String, Bool, true, false, Option, some, ◌⊎◌, inl, inr, ap, ◌∙◌, ok-injective, find, Error,
  Result, ok, err, ℕ, ◌≡◌, refl, sym, subst, none, List, [], ◌∷◌, arith,
}
use parliament.Job.{Job}
use parliament.Jobs.{Jobs, update_leased, update_leased_loop}
use parliament.Jobs.Leases.{update_leased-now, update_leased_loop-nothing}
use parliament.Artifacts.{Artifacts}
use parliament.Execution.{Factory}
use parliament.Execution.Wave.{
  after_deferral, paused_state, pause_unknown_acceptance, Outcome, sent, LeasedChange, count_held,
  Surroundings, plan_wave, checkpointed, checkpoint_before_http, is_uncertain, prepare_wave,
  dispatch_wave, prepare_found, Digest,
}

checkpointed-err : (table : Jobs) (e : Error) → (checkpointed table (err e)).0 ≡ table
unfolding checkpointed
checkpointed-err table e = ground arith

-- an expired lease sends nothing, and any other error is raised
err-sent :
    (d table dispatch : Jobs) (e : Error)
    → sent d (checkpointed table (err e)).1 ≡ ok dispatch
    → dispatch ≡ []
unfolding checkpointed
err-sent d table dispatch e h = ground arith

ok-sent :
    (d table dispatch table' : Jobs) (q : Jobs × Jobs)
    → (checkpointed table (ok q)).0 ≡ table'
    → sent d (checkpointed table (ok q)).1 ≡ ok dispatch
    → (q.1 ≡ table') × (d ≡ dispatch)
unfolding checkpointed
ok-sent d table dispatch table' q e h = (e, ok-injective h)

-- a wave with an uncertain job sends nothing
deferral-sends :
    (digest : Digest) (id : String) (now : ℕ) (rows : Artifacts) (dispatch : Jobs)
    (r : Jobs × Result Bool)
    → (after_deferral digest id now rows r).1 ≡ ok dispatch
    → dispatch ≡ []
unfolding after_deferral paused_state
deferral-sends digest id now rows dispatch (table, ok true) h =
    paused (pause_unknown_acceptance digest id now rows) h
  where
    paused : (r : Result Artifacts) → (paused_state rows table [] r).1 ≡ ok dispatch → dispatch ≡ []
    paused (ok x) g = sym (ok-injective g)
    paused (err e) g = absurd (let x = g in cc)
deferral-sends digest id now rows dispatch (table, ok false) h = sym (ok-injective h)
deferral-sends digest id now rows dispatch (table, err e) h = absurd (let x = h in cc)

module _ (json_bytes : Job → ℕ) (time : ℕ) (digest : Digest) (w : Surroundings) (f : Factory)
    (now : ℕ) (leased : Jobs) (rows : Artifacts) (table : Jobs) where
  abbrev planned_wave : Result (List LeasedChange × Jobs)
  planned_wave = plan_wave w f now leased (record { taken = count_held table; freed = 0 }) table

  module _ (P : Jobs → Type 0) (before : P table)
      (after : (changes : List LeasedChange) (dispatch out table' : Jobs)
        → planned_wave ≡ ok (changes, dispatch)
        → update_leased_loop json_bytes f.owner time changes [] table ≡ ok (out, table')
        → P table') where
    dispatch_wave-commits :
        (planned : Result (List LeasedChange × Jobs))
        → planned_wave ≡ planned
        → P (dispatch_wave json_bytes time f rows table planned).0.1
    unfolding dispatch_wave checkpoint_before_http
    dispatch_wave-commits (err e) h = before
    dispatch_wave-commits (ok ([], d)) h = before
    dispatch_wave-commits (ok (x ∷ xs, d)) h =
        committed (update_leased json_bytes time f.owner (x ∷ xs) none table) refl
      where
        committed :
            (r : Result (Jobs × Jobs))
            → update_leased json_bytes time f.owner (x ∷ xs) none table ≡ r
            → P (checkpointed table r).0
        committed (err e) k = subst P (sym (checkpointed-err table e)) before
        committed (ok q) k =
            unfold checkpointed in
            after (x ∷ xs) d q.0 q.1 h (update_leased-now json_bytes time f.owner (x ∷ xs) table k)

  -- What holds of the table before and of every table that the changes of the loop make of it holds
  -- afterwards, where no leased job is of uncertain acceptance.
  pub prepare_wave-commits :
      find is_uncertain leased ≡ none
      → (P : Jobs → Type 0) → P table
      → ((changes : List LeasedChange) (dispatch out table' : Jobs)
          → planned_wave ≡ ok (changes, dispatch)
          → update_leased_loop json_bytes f.owner time changes [] table ≡ ok (out, table')
          → P table')
      → P (prepare_wave json_bytes time digest w f now leased (rows, table)).0.1
  unfolding prepare_wave prepare_found
  prepare_wave-commits n P before after = rw n (dispatch_wave-commits P before after _ refl)

  returned : {o o' : Outcome Jobs} → o ≡ o' → (o.0.1 ≡ o'.0.1) × (o.1 ≡ o'.1)
  returned h = (ap (λ (y : Outcome Jobs). y.0.1) h, ap (λ (y : Outcome Jobs). y.1) h)

  -- what a dispatch came from: nothing is sent, or the changes of its loop are committed
  abbrev pub Dispatched : Jobs → Jobs → Type 0
  Dispatched dispatch table' =
      (dispatch ≡ [])
      ⊎ ((changes : List LeasedChange) × (out : Jobs) × (planned_wave ≡ ok (changes, dispatch))
          × (update_leased_loop json_bytes f.owner time changes [] table ≡ ok (out, table')))

  dispatch_wave-dispatches :
      (planned : Result (List LeasedChange × Jobs)) (dispatch : Jobs) (rows' : Artifacts)
      (table' : Jobs)
      → planned_wave ≡ planned
      → dispatch_wave json_bytes time f rows table planned ≡ ((rows', table'), ok dispatch)
      → Dispatched dispatch table'
  unfolding dispatch_wave checkpoint_before_http
  dispatch_wave-dispatches (err e) dispatch rows' table' p h = absurd (let x = (returned h).1 in cc)
  dispatch_wave-dispatches (ok ([], d)) dispatch rows' table' p h =
      let (e, r) = returned h in
      inr (
        [],
        [],
        p ∙ ap (λ (y : Jobs). ok ([], y)) (ok-injective r),
        update_leased_loop-nothing json_bytes f.owner time table e,
      )
  dispatch_wave-dispatches (ok (x ∷ xs, d)) dispatch rows' table' p h =
      committed (update_leased json_bytes time f.owner (x ∷ xs) none table) refl
    where
      committed :
          (r : Result (Jobs × Jobs))
          → update_leased json_bytes time f.owner (x ∷ xs) none table ≡ r
          → Dispatched dispatch table'
      committed (err e) k = inl (
          err-sent d table dispatch e (
            ap (λ (o : Result (Jobs × Jobs)). sent d (checkpointed table o).1) (sym k)
            ∙ (returned h).1))
      committed (ok q) k =
          let (e, r) = returned h in
          let after = ap (λ (o : Result (Jobs × Jobs)). checkpointed table o) (sym k) in
          let (l, m) =
            ok-sent d table dispatch table' q (ap (λ y. y.0) after ∙ e)
              (ap (λ (y : Jobs × Result Bool). sent d y.1) after ∙ r) in
          inr (
            x ∷ xs,
            q.0,
            p ∙ ap (λ (y : Jobs). ok (x ∷ xs, y)) m,
            update_leased-now json_bytes time f.owner (x ∷ xs) table k
                ∙ ap (λ (y : Jobs). ok (q.0, y)) l,
          )

  -- What a wave returns to be sent: nothing, or what its loop planned, with the changes committed.
  pub prepare_wave-dispatches :
      (dispatch : Jobs) (rows' : Artifacts) (table' : Jobs)
      → prepare_wave json_bytes time digest w f now leased (rows, table)
        ≡ ((rows', table'), ok dispatch)
      → Dispatched dispatch table'
  unfolding prepare_wave prepare_found
  prepare_wave-dispatches dispatch rows' table' h = found (find is_uncertain leased) h
    where
      found :
          (o : Option Job)
          → prepare_found json_bytes time digest w f now leased o (rows, table)
            ≡ ((rows', table'), ok dispatch)
          → Dispatched dispatch table'
      found none g = dispatch_wave-dispatches _ dispatch rows' table' refl g
      found (some j) g = inl (deferral-sends digest j.id now rows dispatch _ (returned g).1)
