-- ===== src/Jobs/Listing.antt =====
-- store.py, GraphStore.get_job, jobs and enqueue_many: reads of the table, and a batch of insertions
-- in one transaction.
use parliament.Base.{
  ok-injective, length, select, Result, ok, err, ◌>>=◌, >>=-eq-ok, ℕ, suc, String, ◌≡◌, sym, ap,
  ◌∙◌, subst, Bool, true, ◌&&◌, Option, none, some, List, [], ◌∷◌, str_eq, invalid_job_state,
}
use parliament.Value.{Value, Fields}
use parliament.Job.{Job, JobState, state_of_name, same_state}
use parliament.Jobs.{Jobs, read_job, enqueue}
use parliament.Jobs.History.{Reach, here, next, enqueued}

-- GraphStore.get_job
unfoldable pub get_job : String → Jobs → Option Job
get_job id table = read_job id table

-- the clauses of GraphStore.jobs
abbrev pub of_kind : Option String → Job → Bool
of_kind none j = true
of_kind (some kind) j = str_eq j.kind kind

abbrev pub in_state : Option JobState → Job → Bool
in_state none j = true
in_state (some s) j = same_state j.state s

-- `state is not None and state not in STATES` raises
unfoldable pub require_state : Option String → Result (Option JobState)
require_state none = ok none
require_state (some name) = named (state_of_name name)
  where
    named : Option JobState → Result (Option JobState)
    named none = err invalid_job_state
    named (some s) = ok (some s)

-- GraphStore.jobs
unfoldable pub jobs : Option String → Option String → Jobs → Result Jobs
unfolding require_state
jobs state kind table = do
  s ← require_state state
  ok (select (λ j. of_kind kind j && in_state s j) table)

pub record JobItem : Type 0 where
  pub kind : String
  pub key : String
  pub request : Value
  pub context : Fields

-- GraphStore.enqueue_many: the ids in the order of the items
unfoldable pub enqueue_many :
    (Job → ℕ) → (String → String → String) → ℕ → List JobItem → Jobs → Result (List String × Jobs)
enqueue_many json_bytes digest time [] table = ok ([], table)
enqueue_many json_bytes digest time (i ∷ items) table = do
  (id, table') ← enqueue json_bytes digest time i.kind i.key i.request i.context table
  (ids, table'') ← enqueue_many json_bytes digest time items table'
  ok (id ∷ ids, table'')

Reach-trans :
    {json_bytes : Job → ℕ} {digest : String → String → String} {t u v : Jobs}
    → Reach json_bytes digest t u
    → Reach json_bytes digest u v
    → Reach json_bytes digest t v
Reach-trans r here = r
Reach-trans r (next q s) = next (Reach-trans r q) s

-- A batch that commits is a history of single insertions, one for each item, with an id for each.
pub enqueue_many-Reach :
    (json_bytes : Job → ℕ) (digest : String → String → String) (time : ℕ) (items : List JobItem)
    (table : Jobs) (ids : List String) (table' : Jobs)
    → enqueue_many json_bytes digest time items table ≡ ok (ids, table')
    → Reach json_bytes digest table table' × (length ids ≡ length items)
unfolding enqueue_many
enqueue_many-Reach json_bytes digest time [] table ids table' h =
    let e = ok-injective h in
    (subst (λ x. Reach json_bytes digest table x.1) e here, sym (ap (λ x. length x.0) e))
enqueue_many-Reach json_bytes digest time (i ∷ items) table ids table' h =
    let ((id, t1), g, h1) =
      >>=-eq-ok (enqueue json_bytes digest time i.kind i.key i.request i.context table) _ h in
    let ((rest, t2), k, h2) = >>=-eq-ok (enqueue_many json_bytes digest time items t1) _ h1 in
    let (r, n) = enqueue_many-Reach json_bytes digest time items t1 rest t2 k in
    let e = ok-injective h2 in
    let first = enqueued time i.kind i.key i.request i.context id g in
    (
      subst (λ x. Reach json_bytes digest table x.1) e (Reach-trans (next here first) r),
      sym (ap (λ x. length x.0) e) ∙ ap suc n,
    )
