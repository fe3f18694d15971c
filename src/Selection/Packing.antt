-- ===== src/Selection/Packing.antt =====
-- claim_selection.py, selection_batches: what the batches hold.
use parliament.Base.{
  Bool-cases, ok-injective, length, is_nil, All, All-append, All-left, All-right, ok, ◌≡◌, refl,
  sym, ap, ◌∙◌, subst, ◌⊎◌, inl, inr, Bool, true, false, List, [], ◌∷◌, ◌++◌, arith,
}
use mathlib.Core.List.{append-nil, append_assoc}
use parliament.Selection.{close_batch, pack_loop, batches_of}

abbrev pub concat : {A : Type 0} → List (List A) → List A
concat [] = []
concat (b ∷ bs) = b ++ concat bs

module _ {A : Type 0} where
  concat-snoc : (bs : List (List A)) (b : List A) → concat (bs ++ b ∷ []) ≡ concat bs ++ b
  concat-snoc [] b = append-nil b
  concat-snoc (x ∷ bs) b = rw (concat-snoc bs b) (sym (append_assoc x (concat bs) b))

  concat-close_batch :
      (bs : List (List A)) (b : List A) → concat (close_batch bs b) ≡ concat bs ++ b
  unfolding close_batch
  concat-close_batch bs [] = sym (append-nil (concat bs))
  concat-close_batch bs (c ∷ cs) = concat-snoc bs (c ∷ cs)

  -- A batch is never empty, and its request can be built unless it is a single claim.
  abbrev pub IsBatch : (List A → Bool) → List A → Type 0
  IsBatch fits b = (is_nil b ≡ false) × ((fits b ≡ true) ⊎ (length b ≡ 1))

  -- the batch that is being filled
  IsOpen : (List A → Bool) → List A → Type 0
  IsOpen fits b = (is_nil b ≡ true) ⊎ IsBatch fits b

  nil_of : (b : List A) → is_nil b ≡ true → b ≡ []
  nil_of [] h = refl
  nil_of (x ∷ xs) h = absurd (let h' = h in cc)

  snoc_full : (b : List A) (c : A) → is_nil (b ++ c ∷ []) ≡ false
  snoc_full [] c = refl
  snoc_full (x ∷ b) c = refl

module _ {A : Type 0} (fits : List A → Bool) where
  pack_loop-concat :
      (bs : List (List A)) (current claims : List A) (out : List (List A))
      → pack_loop fits bs current claims ≡ ok out
      → concat out ≡ (concat bs ++ current) ++ claims
  unfolding pack_loop
  pack_loop-concat bs current [] out h =
      ap concat (sym (ok-injective h))
      ∙ concat-close_batch bs current
      ∙ sym (append-nil (concat bs ++ current))
  pack_loop-concat bs current (c ∷ cs) out h = elim (Bool-cases (fits (current ++ c ∷ []))) [
    | inl room ↦
        pack_loop-concat bs (current ++ c ∷ []) cs out (rw room at h)
        ∙ regroup (concat bs) current cs c
    | inr over ↦ elim (Bool-cases (is_nil current)) [
      | inl empty ↦ absurd (let h' = rw (over, empty) at h in cc)
      | inr full ↦
          pack_loop-concat (bs ++ current ∷ []) (c ∷ []) cs out (rw (over, full) at h)
          ∙ rw (concat-snoc bs current) (append_assoc (concat bs ++ current) (c ∷ []) cs)
    ]
  ]
    where
      regroup : (xs ys zs : List A) (z : A) → (xs ++ (ys ++ z ∷ [])) ++ zs ≡ (xs ++ ys) ++ z ∷ zs
      regroup xs ys zs z =
          rw (sym (append_assoc xs ys (z ∷ []))) (append_assoc (xs ++ ys) (z ∷ []) zs)

  pack_loop-IsBatch :
      (bs : List (List A)) (current claims : List A) (out : List (List A))
      → All (IsBatch fits) bs
      → IsOpen fits current
      → pack_loop fits bs current claims ≡ ok out
      → All (IsBatch fits) out
  unfolding pack_loop IsOpen
  pack_loop-IsBatch bs current [] out all filling h =
      subst (All (IsBatch fits)) (ok-injective h) (closed current filling)
    where
      closed : (b : List A) → IsOpen fits b → All (IsBatch fits) (close_batch bs b)
      closed [] o = unfold close_batch in all
      closed (x ∷ xs) (inl e) = absurd (let e' = e in cc)
      closed (x ∷ xs) (inr k) =
          unfold close_batch in All-append (IsBatch fits) bs ((x ∷ xs) ∷ []) all (k, tt)
  pack_loop-IsBatch bs current (c ∷ cs) out all filling h =
      elim (Bool-cases (fits (current ++ c ∷ []))) [
        | inl room ↦
            pack_loop-IsBatch bs (current ++ c ∷ []) cs out all
              (inr (snoc_full current c, inl room)) (rw room at h)
        | inr over ↦ elim (Bool-cases (is_nil current)) [
          | inl empty ↦ absurd (let h' = rw (over, empty) at h in cc)
          | inr full ↦
              pack_loop-IsBatch (bs ++ current ∷ []) (c ∷ []) cs out
                (All-append (IsBatch fits) bs (current ∷ []) all (filled filling full, tt))
                (inr (refl, inr refl)) (rw (over, full) at h)
        ]
      ]
    where
      filled : IsOpen fits current → is_nil current ≡ false → IsBatch fits current
      filled (inl e) f = absurd (let e' = sym e ∙ f in cc)
      filled (inr k) f = k

  -- The batches hold every candidate exactly once and in order; none is empty, and the request of each
  -- can be built, unless it is a single candidate.
  pub batches_of-IsBatch :
      (claims : List A) (out : List (List A))
      → batches_of fits claims ≡ ok out
      → (concat out ≡ claims) × All (IsBatch fits) out
  unfolding batches_of IsOpen
  batches_of-IsBatch claims out h =
      (pack_loop-concat [] [] claims out h, pack_loop-IsBatch [] [] claims out tt (inl refl) h)

  pack_loop-total :
      (bs : List (List A)) (current claims : List A)
      → All (λ c. fits (c ∷ []) ≡ true) claims
      → (out : List (List A)) × (pack_loop fits bs current claims ≡ ok out)
  unfolding pack_loop
  pack_loop-total bs current [] single = (close_batch bs current, refl)
  pack_loop-total bs current (c ∷ cs) single = elim (Bool-cases (fits (current ++ c ∷ []))) [
    | inl room ↦ rw room (pack_loop-total bs (current ++ c ∷ []) cs single.1)
    | inr over ↦ elim (Bool-cases (is_nil current)) [
      | inl empty ↦ absurd (clash (rw (nil_of current empty) at over) single.0)
      | inr full ↦ rw (over, full) (pack_loop-total (bs ++ current ∷ []) (c ∷ []) cs single.1)
    ]
  ]
    where
      clash : fits (c ∷ []) ≡ false → fits (c ∷ []) ≡ true → ⊥
      clash a b = let e = sym a ∙ b in bools_apart e
        where
          bools_apart : false ≡ true → ⊥
          bools_apart e = cc

  one_fits : (b : List A) → All (λ c. fits (c ∷ []) ≡ true) b → IsBatch fits b → fits b ≡ true
  one_fits b single (full, inl e) = e
  one_fits [] single (full, inr e) = absurd (let f = full in cc)
  one_fits (c ∷ []) single (full, inr e) = single.0
  one_fits (c ∷ d ∷ cs) single (full, inr e) = absurd (omega (arith, e))

  all_fit :
      (bs : List (List A))
      → All (λ c. fits (c ∷ []) ≡ true) (concat bs)
      → All (IsBatch fits) bs
      → All (λ b. fits b ≡ true) bs
  all_fit [] single good = tt
  all_fit (b ∷ bs) single good = (
    one_fits b (All-left _ b (concat bs) single) good.0,
    all_fit bs (All-right _ b (concat bs) single) good.1,
  )

  -- Where every candidate of the list fits by itself the packing succeeds, and the request of every batch can be
  -- built.
  pub batches_of-total :
      (claims : List A)
      → All (λ c. fits (c ∷ []) ≡ true) claims
      → (out : List (List A)) × (batches_of fits claims ≡ ok out)
        × All (λ b. fits b ≡ true) out
        × (concat out ≡ claims)
  unfolding batches_of
  batches_of-total claims single =
      let (out, e) = pack_loop-total [] [] claims single in
      let (whole, good) = batches_of-IsBatch claims out e in
      (out, e, all_fit out (subst (All (λ c. fits (c ∷ []) ≡ true)) (sym whole) single) good, whole)
