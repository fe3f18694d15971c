-- ===== src/Status/Tracking.antt =====
-- status.py: the loops over the history keep one entry for each derivation, and remember each failed
-- one.
use parliament.Base.{
  Bool-cases, str_eq_refl, &&-eq-true, str_eq_comm, any, find, String, ◌≡◌, refl, inl, inr, Bool,
  true, false, ◌&&◌, ◌||◌, Option, none, some, List, [], ◌∷◌, ◌++◌, str_eq, str_eq_iff,
}
use parliament.Job.{JobState, same_state, failed}
use parliament.Status.{
  StatusRow, Latest, is_target, upsert, note_latest, latest_loop, is_failed, same_logical,
  add_failed, note_failed, failed_loop,
}

-- one entry for each derivation
unfoldable pub Distinct : List Latest → Type 0
Distinct [] = Unit
Distinct (l ∷ ls) = (find (is_target l.kind l.key) ls ≡ none) × Distinct ls

unfoldable pub member : String → String → List (String × String) → Bool
member kind key keys = any (same_logical kind key) keys

-- every entry that has failed is in the set of failed keys
unfoldable pub Covered : List (String × String) → List Latest → Type 0
unfolding member
Covered keys [] = Unit
Covered keys (l ∷ ls) = (is_failed l ≡ true → member l.kind l.key keys ≡ true) × Covered keys ls

find-upsert_other :
    (kind key a b : String) (s : JobState) (ls : List Latest)
    → (str_eq a kind && str_eq b key) ≡ false
    → find (is_target kind key) ls ≡ none
    → find (is_target kind key) (upsert a b s ls) ≡ none
unfolding upsert
find-upsert_other kind key a b s [] o h = rw o refl
find-upsert_other kind key a b s (l ∷ ls) o h = elim (Bool-cases (is_target kind key l)) [
  | inl own ↦ absurd (let h' = rw own at h in cc)
  | inr other ↦
      let later = find-upsert_other kind key a b s ls o (rw other at h) in
      (elim (Bool-cases (is_target a b l)) [
        | inl hit ↦ rw (hit, other) (rw other at h)
        | inr miss ↦ rw (miss, other) later
      ])
]

upsert-Distinct :
    (a b : String) (s : JobState) (ls : List Latest) → Distinct ls → Distinct (upsert a b s ls)
unfolding upsert Distinct
upsert-Distinct a b s [] d = (refl, tt)
upsert-Distinct a b s (l ∷ ls) d = elim (Bool-cases (is_target a b l)) [
  | inl hit ↦ rw hit d
  | inr miss ↦
      rw miss
        ((find-upsert_other l.kind l.key a b s ls (swapped miss) d.0, upsert-Distinct a b s ls d.1))
]
  where
    swapped : is_target a b l ≡ false → (str_eq a l.kind && str_eq b l.key) ≡ false
    swapped e = rw (str_eq_comm a l.kind, str_eq_comm b l.key) e

pub latest_loop-Distinct :
    (rows : List StatusRow) (ls : List Latest) → Distinct ls → Distinct (latest_loop rows ls)
unfolding latest_loop
latest_loop-Distinct [] ls d = d
latest_loop-Distinct (r ∷ rows) ls d =
    latest_loop-Distinct rows (note_latest r.artifact_key r ls) (noted r.artifact_key)
  where
    noted : (k : Option String) → Distinct (note_latest k r ls)
    noted none = unfold note_latest in d
    noted (some key) = unfold note_latest in upsert-Distinct r.kind key r.state ls d

any-snoc :
    (p : String × String → Bool) (x : String × String) (xs : List (String × String))
    → any p (xs ++ x ∷ []) ≡ (any p xs || p x)
any-snoc p x [] = or_false (p x)
  where
    or_false : (b : Bool) → (b || false) ≡ (false || b)
    or_false true = refl
    or_false false = refl
any-snoc p x (y ∷ xs) = rw (any-snoc p x xs) (or_assoc (p y) (any p xs) (p x))
  where
    or_assoc : (a b c : Bool) → (a || (b || c)) ≡ ((a || b) || c)
    or_assoc true b c = refl
    or_assoc false b c = refl

or_left : (a b : Bool) → a ≡ true → (a || b) ≡ true
or_left a b h = rw h refl

or_right : (a b : Bool) → b ≡ true → (a || b) ≡ true
or_right true b h = refl
or_right false b h = h

member-add_failed :
    (kind key a b : String) (keys : List (String × String))
    → member kind key keys ≡ true
    → member kind key (add_failed a b keys) ≡ true
unfolding add_failed member
member-add_failed kind key a b keys h = elim (Bool-cases (any (same_logical a b) keys)) [
  | inl known ↦ rw known h
  | inr fresh ↦ rw (fresh, any-snoc (same_logical kind key) (a, b) keys) (or_left _ _ h)
]

added-member :
    (a b : String) (keys : List (String × String)) → member a b (add_failed a b keys) ≡ true
unfolding add_failed member
added-member a b keys = elim (Bool-cases (any (same_logical a b) keys)) [
  | inl known ↦ rw known known
  | inr fresh ↦
      rw (fresh, any-snoc (same_logical a b) (a, b) keys)
        (or_right (any (same_logical a b) keys) _ (rw (str_eq_refl a, str_eq_refl b) refl))
]

-- the set after a row keeps its members, and gains the row's key when the row has failed
note_failed-member :
    (kind key : String) (k : Option String) (r : StatusRow) (keys : List (String × String))
    → member kind key keys ≡ true
    → member kind key (note_failed k r keys) ≡ true
unfolding note_failed
note_failed-member kind key none r keys h = h
note_failed-member kind key (some k) r keys h = elim (Bool-cases (same_state r.state failed)) [
  | inl bad ↦ rw bad (member-add_failed kind key r.kind k keys h)
  | inr good ↦ rw good h
]

Covered-map :
    (keys keys' : List (String × String)) (ls : List Latest)
    → ((a b : String) → member a b keys ≡ true → member a b keys' ≡ true)
    → Covered keys ls
    → Covered keys' ls
unfolding Covered
Covered-map keys keys' [] f h = tt
Covered-map keys keys' (l ∷ ls) f h =
    ((λ e. f l.kind l.key (h.0 e)), Covered-map keys keys' ls f h.1)

upsert-Covered :
    (a b : String) (s : JobState) (keys : List (String × String)) (ls : List Latest)
    → (same_state s failed ≡ true → member a b keys ≡ true)
    → Covered keys ls
    → Covered keys (upsert a b s ls)
unfolding upsert Covered
upsert-Covered a b s keys [] n h = (n, tt)
upsert-Covered a b s keys (l ∷ ls) n h = elim (Bool-cases (is_target a b l)) [
  | inl hit ↦
      let (x, y) = &&-eq-true (str_eq l.kind a) _ hit in
      rw hit ((renamed ((str_eq_iff l.kind a).0 x) ((str_eq_iff l.key b).0 y), h.1))
  | inr miss ↦ rw miss ((h.0, upsert-Covered a b s keys ls n h.1))
]
  where
    renamed : l.kind ≡ a → l.key ≡ b → same_state s failed ≡ true → member l.kind l.key keys ≡ true
    renamed x y e = rw (x, y) (n e)

note-Covered :
    (k : Option String) (r : StatusRow) (keys : List (String × String)) (ls : List Latest)
    → Covered keys ls
    → Covered (note_failed k r keys) (note_latest k r ls)
unfolding note_latest
note-Covered none r keys ls h = unfold note_failed in h
note-Covered (some k) r keys ls h =
    upsert-Covered r.kind k r.state (note_failed (some k) r keys) ls noted (
      Covered-map keys (note_failed (some k) r keys) ls
        (λ a b. note_failed-member a b (some k) r keys) h)
  where
    noted : same_state r.state failed ≡ true → member r.kind k (note_failed (some k) r keys) ≡ true
    noted e = unfold note_failed in rw e (added-member r.kind k keys)

pub loops-Covered :
    (rows : List StatusRow) (keys : List (String × String)) (ls : List Latest)
    → Covered keys ls
    → Covered (failed_loop rows keys) (latest_loop rows ls)
unfolding latest_loop failed_loop
loops-Covered [] keys ls h = h
loops-Covered (r ∷ rows) keys ls h =
    loops-Covered rows _ _ (note-Covered r.artifact_key r keys ls h)
