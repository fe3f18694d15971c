-- ===== src/Selection.antt =====
-- worker/src/parliament_worker/graphrag/claim_selection.py, selection_batches, and reduction.py,
-- _batches: candidates packed into requests. `fits` says whether the request of a batch can be built,
-- where selection_request, or paired_context with _answer_request, does not raise ValueError.
pub mod Packing
pub mod Choice
pub mod Grounding
mod Samples
use parliament.Base.{
  ltb, leb, ◌==◌, if◌then◌else◌, ltb→lt, lt→ltb, leb→le, le→leb, Bool-cases, Option-cases,
  str_eq_refl, opt_eq, opt_eq_sound, &&-eq-true, ||-eq-false, &&-false, some-eq, ok-injective,
  str_eq_comm, length, take, select, any, find, is_nil, All, length-append, length-take-le,
  All-append, All-map, Error, Result, ok, err, ◌>>=◌, ◌>>◌, require, >>=-eq-ok, >>-eq-ok,
  require-eq-ok, ℕ, zero, suc, ◌+◌, ◌-◌, ◌*◌, ◌≤◌, ◌<◌, min, max, String, ◌≡◌, refl, sym, ap, ◌∙◌,
  subst, ◌≢◌, ◌↔◌, ◌⊎◌, inl, inr, Bool, true, false, ◌&&◌, ◌||◌, not, Option, none, some, List, [],
  ◌∷◌, ◌++◌, map, arith, str_eq, str_eq_iff, request_too_large,
}

-- `batches.append(current)` at the end, if there is one
pub close_batch : {A : Type 0} → List (List A) → List A → List (List A)
close_batch batches [] = batches
close_batch batches (c ∷ cs) = batches ++ (c ∷ cs) ∷ []

module _ {A : Type 0} (fits : List A → Bool) where
  -- the loop over the claims that are left
  pub pack_loop : List (List A) → List A → List A → Result (List (List A))
  unfolding close_batch
  pack_loop batches current [] = ok (close_batch batches current)
  pack_loop batches current (c ∷ cs) =
      let grown = pack_loop batches (current ++ c ∷ []) cs in
      let started = pack_loop (batches ++ current ∷ []) (c ∷ []) cs in
      if fits (current ++ c ∷ [])
      then grown
      else if is_nil current
      then err request_too_large
      else started

  -- selection_batches, and reduction._batches
  pub batches_of : List A → Result (List (List A))
  unfolding pack_loop
  batches_of claims = pack_loop [] [] claims
