-- ===== src/Index/Families.antt =====
-- index.py, reconcile: the loop goes over every current artifact of the four families.
use parliament.Base.{
  Bool-cases, select, All, All-map, String, ◌≡◌, refl, inl, inr, Bool, true, ◌&&◌, ◌||◌, [], ◌∷◌,
  ◌++◌, str_eq, All-and,
}
use parliament.Artifacts.{Artifact, Artifacts, artifacts}
use parliament.Index.{families}

-- the four families of derived artifacts
abbrev pub is_derived : String → Bool
is_derived kind =
    str_eq kind "graph"
    || (str_eq kind "community" || (str_eq kind "answer_map" || str_eq kind "answer"))

All-select :
    (P : Artifact → Type 0) (p : Artifact → Bool) (rows : Artifacts)
    → All P (select p rows)
    → All (λ r. p r ≡ true → P r) rows
All-select P p [] a = tt
All-select P p (r ∷ rows) a = elim (Bool-cases (p r)) [
  | inl hit ↦ let b = rw hit at a in ((λ _. b.0), All-select P p rows b.1)
  | inr miss ↦ ((λ h. absurd (let m = miss in cc)), All-select P p rows (rw miss at a))
]

All-split : (P : Artifact → Type 0) (xs ys : Artifacts) → All P (xs ++ ys) → All P xs × All P ys
All-split P [] ys a = (tt, a)
All-split P (x ∷ xs) ys a = let (p, q) = All-split P xs ys a.1 in ((a.0, p), q)

-- every current row of a family is in the loop of reconcile
pub families-All :
    (P : Artifact → Type 0) (rows : Artifacts)
    → All P (families rows)
    → All (λ r. r.current ≡ true → is_derived r.kind ≡ true → P r) rows
unfolding families artifacts
families-All P rows a =
    let (g, a1) = All-split P (artifacts "graph" true rows) _ a in
    let (c, a2) = All-split P (artifacts "community" true rows) _ a1 in
    let (m, w) = All-split P (artifacts "answer_map" true rows) _ a2 in
    All-map _ _ rows (λ r h now d. one_of r (h.0.0) (h.0.1) (h.1.0) (h.1.1) now d)
      (All-and _ _ rows (All-and _ _ rows (All-select P _ rows g) (All-select P _ rows c))
        (All-and _ _ rows (All-select P _ rows m) (All-select P _ rows w)))
  where
    one_of :
        (r : Artifact)
        → ((str_eq r.kind "graph" && r.current) ≡ true → P r)
        → ((str_eq r.kind "community" && r.current) ≡ true → P r)
        → ((str_eq r.kind "answer_map" && r.current) ≡ true → P r)
        → ((str_eq r.kind "answer" && r.current) ≡ true → P r)
        → r.current ≡ true
        → is_derived r.kind ≡ true
        → P r
    one_of r g c m w now d = elim (Bool-cases (str_eq r.kind "graph")) [
      | inl e ↦ g (rw (e, now) refl)
      | inr e1 ↦ elim (Bool-cases (str_eq r.kind "community")) [
        | inl e ↦ c (rw (e, now) refl)
        | inr e2 ↦ elim (Bool-cases (str_eq r.kind "answer_map")) [
          | inl e ↦ m (rw (e, now) refl)
          | inr e3 ↦ w (rw (rw (e1, e2, e3) at d, now) refl)
        ]
      ]
    ]
