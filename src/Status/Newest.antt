-- ===== src/Status/Newest.antt =====
-- status.py: `latest` holds the newest attempt of each derivation.
use parliament.Base.{
  if◌then◌else◌, Bool-cases, opt_eq, &&-eq-true, &&-false, find, String, ◌≡◌, refl, ap, ◌∙◌, inl,
  inr, Bool, true, false, ◌&&◌, Option, none, some, List, [], ◌∷◌, arith, str_eq, str_eq_iff,
}
use parliament.Job.{JobState}
use parliament.Status.{StatusRow, Latest, is_target, upsert, note_latest, latest_loop}

-- The state of the newest attempt of a derivation among the rows, or the one known before them.
abbrev pub newest : String → String → List StatusRow → Option JobState → Option JobState
newest kind key [] before = before
newest kind key (r ∷ rows) before =
    newest kind key rows
      (if str_eq r.kind kind && opt_eq r.artifact_key (some key) then some r.state else before)

abbrev pub state_of : Option Latest → Option JobState
state_of none = none
state_of (some l) = some l.state

find-upsert :
    (kind key a b : String) (s : JobState) (ls : List Latest)
    → state_of (find (is_target kind key) (upsert a b s ls))
      ≡ (if str_eq a kind && str_eq b key then some s else state_of (find (is_target kind key) ls))
unfolding upsert
find-upsert kind key a b s [] = branch (str_eq a kind && str_eq b key)
  where
    branch :
        (t : Bool)
        → state_of (if t then some (record { kind = a; key = b; state = s }) else none)
          ≡ (if t then some s else none)
    branch true = refl
    branch false = refl
find-upsert kind key a b s (l ∷ ls) = elim (Bool-cases (is_target a b l)) [
  | inl own ↦
      let (x, y) = &&-eq-true (str_eq l.kind a) _ own in
      rw own (
        replaced (str_eq l.kind kind && str_eq l.key key) (str_eq a kind && str_eq b key)
          (same_target ((str_eq_iff l.kind a).0 x) ((str_eq_iff l.key b).0 y)))
  | inr other ↦ rw other (kept (is_target kind key l) refl other (find-upsert kind key a b s ls))
]
  where
    same_target :
        l.kind ≡ a
        → l.key ≡ b
        → (str_eq l.kind kind && str_eq l.key key) ≡ (str_eq a kind && str_eq b key)
    same_target x y = rw (x, y) refl

    replaced :
        (t u : Bool)
        → t ≡ u
        → state_of (if t then some (record l { state = s }) else find (is_target kind key) ls)
          ≡ (if u then some s else state_of (if t then some l else find (is_target kind key) ls))
    replaced true true e = refl
    replaced false false e = refl
    replaced true false e = absurd (let e' = e in cc)
    replaced false true e = absurd (let e' = e in cc)

    apart :
        is_target kind key l ≡ true
        → is_target a b l ≡ false
        → (str_eq a kind && str_eq b key) ≡ false
    apart e o = ground (
      arith,
      str_eq_iff l.kind kind,
      str_eq_iff l.key key,
      str_eq_iff l.kind a,
      str_eq_iff l.key b,
      str_eq_iff a kind,
      str_eq_iff b key,
    )

    kept :
        (t : Bool)
        → is_target kind key l ≡ t
        → is_target a b l ≡ false
        → state_of (find (is_target kind key) (upsert a b s ls)) ≡ (
            if str_eq a kind && str_eq b key
            then some s
            else state_of (find (is_target kind key) ls))
        → state_of (if t then some l else find (is_target kind key) (upsert a b s ls)) ≡ (
            if str_eq a kind && str_eq b key
            then some s
            else state_of (if t then some l else find (is_target kind key) ls))
    kept false e o ih = ih
    kept true e o ih = rw (apart e o) refl

find-note_latest :
    (kind key : String) (k : Option String) (r : StatusRow) (ls : List Latest)
    → state_of (find (is_target kind key) (note_latest k r ls)) ≡ (
        if str_eq r.kind kind && opt_eq k (some key)
        then some r.state
        else state_of (find (is_target kind key) ls))
unfolding note_latest
find-note_latest kind key none r ls = rw (&&-false (str_eq r.kind kind)) refl
find-note_latest kind key (some k) r ls = find-upsert kind key r.kind k r.state ls

-- Whatever the history, `latest` holds for every derivation the state of its last row, and nothing for
-- a derivation without a row.
pub latest-eq-newest :
    (kind key : String) (rows : List StatusRow) (ls : List Latest)
    → state_of (find (is_target kind key) (latest_loop rows ls))
      ≡ newest kind key rows (state_of (find (is_target kind key) ls))
unfolding latest_loop
latest-eq-newest kind key [] ls = refl
latest-eq-newest kind key (r ∷ rows) ls =
    latest-eq-newest kind key rows (note_latest r.artifact_key r ls)
    ∙ ap (newest kind key rows) (find-note_latest kind key r.artifact_key r ls)
