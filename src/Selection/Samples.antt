-- ===== src/Selection/Samples.antt =====
-- Packings and choices on small inputs, and the theorems at them.
use parliament.Base.{
  leb, length, is_nil, All, ok, err, ℕ, ◌+◌, ◌≤◌, String, ◌≡◌, refl, Bool, true, false, Option,
  some, List, [], ◌∷◌, request_too_large,
}
use parliament.Value.{Value, Fields, str, arr, obj, nil, cons, end, field, get}
use parliament.Retirement.{unique_ids}
use parliament.Jobs.{distinct}
use parliament.Selection.{pack_loop, batches_of, close_batch}
use parliament.Selection.Packing.{concat, IsBatch, batches_of-IsBatch, batches_of-total}
use parliament.Selection.Choice.{
  Context, Selected, lookup, chosen, known_claim, id_texts, claims_of, claim_url, claim_urls,
  claim_texts, covers, join_lines, materialize_selection, grouped_choice, plain_choice, field_names,
  field_values, item_values, same_set, object_fields, list_values,
}
use parliament.Selection.Grounding.{IsPinned, has_host, materialize_selection-IsPinned}

-- a request has room for the sum 5
abbrev sum : List ℕ → ℕ
sum [] = 0
sum (x ∷ xs) = x + sum xs

abbrev room : List ℕ → Bool
room b = leb (sum b) 5

pack_run :
    batches_of room (2 ∷ 3 ∷ 4 ∷ 1 ∷ 2 ∷ []) ≡ ok ((2 ∷ 3 ∷ []) ∷ (4 ∷ 1 ∷ []) ∷ (2 ∷ []) ∷ [])
unfolding batches_of pack_loop close_batch
pack_run = refl

-- a candidate that does not fit by itself is refused at the first place, but not after another one
oversized_first : batches_of room (9 ∷ 1 ∷ []) ≡ err request_too_large
unfolding batches_of pack_loop close_batch
oversized_first = refl

oversized_later : batches_of room (1 ∷ 9 ∷ []) ≡ ok ((1 ∷ []) ∷ (9 ∷ []) ∷ [])
unfolding batches_of pack_loop close_batch
oversized_later = refl

abbrev claims : List ℕ
claims = 1 ∷ 9 ∷ []

abbrev packed : List (List ℕ)
packed = (1 ∷ []) ∷ (9 ∷ []) ∷ []

batches_of-IsBatch_example : (concat packed ≡ claims) × All (IsBatch room) packed
batches_of-IsBatch_example = batches_of-IsBatch room claims packed oversized_later

-- each fits by itself, and another number, 9, would not
abbrev three : List ℕ
three = 2 ∷ 4 ∷ 1 ∷ []

batches_of-total_example :
    (out : List (List ℕ)) × (batches_of room three ≡ ok out)
    × All (λ b. room b ≡ true) out
    × (concat out ≡ three)
batches_of-total_example = batches_of-total room three (refl, (refl, (refl, tt)))

abbrev claim : String → String → Fields
claim text url =
    field "evidence" (obj (field "sourceUrl" (str url) end)) (field "text" (str text) end)

abbrev context : Context
context = record {
  grouped = true;
  aliases = ("C1", claim "x" "a") ∷ ("C2", claim "y" "b") ∷ ("C3", claim "z" "b") ∷ [];
  host_aliases = ("H1", "C1" ∷ []) ∷ ("H2", "C2" ∷ "C3" ∷ []) ∷ [];
  required_hosts = "a" ∷ "b" ∷ [];
  required_facets = [];
  source_facets = [];
}

abbrev output : Value
output = obj (
    field "extra" (arr (cons (str "C2") nil))
      (field "hostChoices" (obj (field "H1" (str "C1") (field "H2" (str "C3") end))) end))

abbrev selection : Selected
selection = record {
  answer = "x\nz\ny";
  claims = claim "x" "a" ∷ claim "z" "b" ∷ claim "y" "b" ∷ [];
  insufficient = false;
}

abbrev host : String → Option String
host url = some url

choice_run : materialize_selection host context output ≡ ok selection
unfolding materialize_selection chosen known_claim id_texts claims_of claim_url claim_urls
    claim_texts covers join_lines grouped_choice plain_choice field_names field_values item_values
    same_set object_fields list_values lookup distinct unique_ids get
choice_run = refl

materialize_selection-IsPinned_example :
    All (IsPinned context) selection.claims
    × (length selection.claims ≤ 4)
    × All (λ h. has_host host selection.claims h ≡ true) ("a" ∷ "b" ∷ [])
    × (false ≡ is_nil selection.claims)
materialize_selection-IsPinned_example =
    materialize_selection-IsPinned host context output selection choice_run
