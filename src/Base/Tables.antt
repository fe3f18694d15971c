-- ===== src/Base/Tables.antt =====
-- Tables of a database as lists of rows in insertion order (`ORDER BY rowid`).
use parliament.Base.{
  ◌≡◌, refl, List, [], ◌∷◌, ◌++◌, Bool, true, false, none, some, find, if◌then◌else◌, Bool-cases,
  inl, inr, subst, ap, any, ||-eq-false, ◌||◌, some-eq, sym, ◌∙◌,
}

module _ {ℓ} {A : Type ℓ} where
  -- `UPDATE … SET … WHERE …`: every row that passes the test is rewritten in its place.
  abbrev pub update_where : (A → Bool) → (A → A) → List A → List A
  update_where p f [] = []
  update_where p f (x ∷ xs) = (if p x then f x else x) ∷ update_where p f xs

  -- An update that selects no row changes none.
  pub update_where-none :
      (p : A → Bool) (f : A → A) (xs : List A) → find p xs ≡ none → update_where p f xs ≡ xs
  update_where-none p f [] h = refl
  update_where-none p f (x ∷ xs) h = elim (Bool-cases (p x)) [
    | inl here ↦ absurd (let h' = rw here at h in cc)
    | inr other ↦ rw other (ap (◌∷◌ x) (update_where-none p f xs (rw other at h)))
  ]

  -- A row that is found passes the test.
  pub find-some : (p : A → Bool) (xs : List A) {a : A} → find p xs ≡ some a → p a ≡ true
  find-some p [] h = absurd (let h' = h in cc)
  find-some p (x ∷ xs) {a} h = elim (Bool-cases (p x)) [
    | inl here ↦ subst (λ y. p y ≡ true) (some-eq (rw here at h)) here
    | inr other ↦ find-some p xs (rw other at h)
  ]

  -- No row passes a test for which nothing is found.
  pub any-find : (p : A → Bool) (xs : List A) → any p xs ≡ false → find p xs ≡ none
  any-find p [] h = refl
  any-find p (x ∷ xs) h =
      let (here, later) = ||-eq-false (p x) (any p xs) h in rw here (any-find p xs later)

  pub any-append : (p : A → Bool) (xs ys : List A) → any p (xs ++ ys) ≡ any p xs || any p ys
  any-append p [] ys = refl
  any-append p (x ∷ xs) ys = rw (any-append p xs ys) (or_assoc (p x) (any p xs) (any p ys))
    where
      or_assoc : (a b c : Bool) → (a || (b || c)) ≡ ((a || b) || c)
      or_assoc true b c = refl
      or_assoc false b c = refl

  -- A row that is found and passes another test makes that test hold somewhere.
  pub find-any :
      (p q : A → Bool) (xs : List A) {a : A} → find p xs ≡ some a → q a ≡ true → any q xs ≡ true
  find-any p q [] h k = absurd (let h' = h in cc)
  find-any p q (x ∷ xs) {a} h k = elim (Bool-cases (p x)) [
    | inl here ↦ rw (subst (λ y. q y ≡ true) (sym (some-eq (rw here at h))) k) refl
    | inr other ↦ rw (find-any p q xs (rw other at h) k) (or-true (q x))
  ]
    where
      or-true : (b : Bool) → (b || true) ≡ true
      or-true true = refl
      or-true false = refl

  -- An update that keeps its test rewrites the row that the test finds.
  pub find-update_where :
      (p : A → Bool) (f : A → A) (xs : List A) {a : A}
      → ((x : A) → p (f x) ≡ p x)
      → find p xs ≡ some a
      → find p (update_where p f xs) ≡ some (f a)
  find-update_where p f [] keeps h = absurd (let h' = h in cc)
  find-update_where p f (x ∷ xs) {a} keeps h = elim (Bool-cases (p x)) [
    | inl here ↦ rw (here, keeps x ∙ here) (ap (λ y. some (f y)) (some-eq (rw here at h)))
    | inr other ↦ rw (other, other) (find-update_where p f xs keeps (rw other at h))
  ]

  -- What another test finds, which fails on every row rewritten, stays.
  pub find-update_where_ne :
      (p q : A → Bool) (f : A → A) (xs : List A)
      → ((x : A) → p x ≡ true → (q x ≡ false) × (q (f x) ≡ false))
      → find q (update_where p f xs) ≡ find q xs
  find-update_where_ne p q f [] apart = refl
  find-update_where_ne p q f (x ∷ xs) apart = elim (Bool-cases (p x)) [
    | inl here ↦ let (a, b) = apart x here in rw (here, a, b) (find-update_where_ne p q f xs apart)
    | inr other ↦
        rw other (ap (λ r. if q x then some x else r) (find-update_where_ne p q f xs apart))
  ]

  pub find-append_new :
      (p : A → Bool) (xs : List A) (a : A)
      → find p xs ≡ none
      → p a ≡ true
      → find p (xs ++ a ∷ []) ≡ some a
  find-append_new p [] a h k = rw k refl
  find-append_new p (x ∷ xs) a h k = elim (Bool-cases (p x)) [
    | inl here ↦ absurd (let h' = rw here at h in cc)
    | inr other ↦ rw other (find-append_new p xs a (rw other at h) k)
  ]

  pub find-append_ne :
      (p : A → Bool) (xs : List A) (a : A) → p a ≡ false → find p (xs ++ a ∷ []) ≡ find p xs
  find-append_ne p [] a k = rw k refl
  find-append_ne p (x ∷ xs) a k = ap (λ r. if p x then some x else r) (find-append_ne p xs a k)
