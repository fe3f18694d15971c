-- ===== src/Selection/Choice.antt =====
-- claim_selection.py, materialize_selection: the choice of a model turned into pinned claims. A JSON
-- object is the list of its fields, so `choices.values()` comes in the order of the sorted group
-- names. `host_of` is the host name that Python's urlparse finds.
use Prim.Native.String.{◌++◌ as text_append}
use parliament.Base.{
  leb, if◌then◌else◌, opt_eq, length, any, is_nil, Error, Result, ok, err, ◌>>=◌, ◌>>◌, require,
  ◌+◌, String, Bool, true, false, ◌&&◌, not, Option, none, some, List, [], ◌∷◌, ◌++◌, map, str_eq,
  invalid_selected_ids, invalid_selection_output, invalid_pinned_claim, malformed_claim,
  lacks_source_coverage,
}
use parliament.Value.Objects.{is_true}
use parliament.Value.{Value, Items, Fields, bool, str, arr, obj, nil, cons, end, field, get}
use parliament.Retirement.{unique_ids}
use parliament.Jobs.{distinct}

-- what a request of selection_request keeps in its context
pub record Context : Type 0 where
  pub grouped : Bool
  pub aliases : List (String × Fields)
  pub host_aliases : List (String × List String)
  pub required_hosts : List String
  pub required_facets : List String
  pub source_facets : List (String × String)

pub record Selected : Type 0 where
  pub answer : String
  pub claims : List Fields
  pub insufficient : Bool

unfoldable pub lookup {ℓ} : {A : Type ℓ} → String → List (String × A) → Option A
lookup k [] = none
lookup k ((j, a) ∷ rest) = if str_eq j k then some a else lookup k rest

abbrev pub member : String → List String → Bool
member x xs = any (str_eq x) xs

abbrev pub all_of {ℓ} : {A : Type ℓ} → (A → Bool) → List A → Bool
all_of p [] = true
all_of p (x ∷ xs) = p x && all_of p xs

unfoldable pub field_names : Fields → List String
field_names end = []
field_names (field k v fs) = k ∷ field_names fs

unfoldable pub field_values : Fields → List Value
field_values end = []
field_values (field k v fs) = v ∷ field_values fs

unfoldable pub item_values : Items → List Value
item_values nil = []
item_values (cons v vs) = v ∷ item_values vs

abbrev pub first_names {ℓ} : {A : Type ℓ} → List (String × A) → List String
first_names = map (λ e. e.0)

-- `set(xs) == set(ys)`
unfoldable pub same_set : List String → List String → Bool
same_set xs ys = all_of (λ x. member x ys) xs && all_of (λ y. member y xs) ys

abbrev pub text_in : List String → Option Value → Bool
text_in allowed (some (str s)) = member s allowed
text_in allowed _ = false

unfoldable pub object_fields : Option Value → Error → Result Fields
object_fields (some (obj fs)) e = ok fs
object_fields _ e = err e

unfoldable pub list_values : Option Value → Error → Result (List Value)
list_values (some (arr xs)) e = ok (item_values xs)
list_values _ e = err e

-- the branch of SOURCE_GROUP_SELECTION_CONTRACT
unfoldable pub grouped_choice : Context → Value → Result (List Value)
unfolding field_names field_values object_fields list_values same_set get item_values
grouped_choice c output = do
  fs ← object_fields (some output) invalid_selection_output
  require (same_set (field_names fs) ("extra" ∷ "hostChoices" ∷ [])) invalid_selection_output
  choices ← object_fields (get "hostChoices" fs) invalid_selection_output
  require (same_set (field_names choices) (first_names c.host_aliases)) invalid_selection_output
  extra ← list_values (get "extra" fs) invalid_selection_output
  require (leb (length extra + length c.host_aliases) 4) invalid_selection_output
  require (all_of (λ e. text_in e.1 (get e.0 choices)) c.host_aliases) invalid_selection_output
  ok (field_values choices ++ extra)

-- `output["insufficient"] != (not selected)`, negated, for a list
abbrev pub flag_agrees : Option Value → List Value → Bool
flag_agrees (some (bool b)) vs = if is_nil vs then b else not b
flag_agrees _ vs = false

unfoldable pub plain_choice : Value → Result (List Value)
unfolding field_names object_fields list_values same_set get item_values
plain_choice output = do
  fs ← object_fields (some output) invalid_selection_output
  require (same_set (field_names fs) ("insufficient" ∷ "selected" ∷ [])) invalid_selection_output
  selected ← list_values (get "selected" fs) invalid_selected_ids
  require (flag_agrees (get "insufficient" fs) selected) invalid_selected_ids
  ok selected

unfoldable pub chosen : Context → Value → Result (List Value)
unfolding grouped_choice plain_choice
chosen c output = if c.grouped then grouped_choice c output else plain_choice output

-- the ids, which all have to be texts
unfoldable pub id_texts : List Value → Result (List String)
id_texts [] = ok []
id_texts (str s ∷ vs) = do ids ← id_texts vs; ok (s ∷ ids)
id_texts (_ ∷ vs) = err invalid_selected_ids

unfoldable pub known_claim : Option Fields → Result Fields
known_claim none = err invalid_selected_ids
known_claim (some c) = ok c

-- `[aliases[item] for item in selected]`, an id outside the aliases refused
unfoldable pub claims_of : List (String × Fields) → List String → Result (List Fields)
unfolding lookup known_claim
claims_of aliases [] = ok []
claims_of aliases (i ∷ ids) = do
  c ← known_claim (lookup i aliases)
  cs ← claims_of aliases ids
  ok (c ∷ cs)

-- urlparse and the lookup of a facet take a text, and None, False or 0, which stand for no URL; they
-- raise for any other value
abbrev pub url_of : Option Value → Result (Option String)
url_of none = err malformed_claim
url_of (some (str s)) = ok (some s)
url_of (some (obj fs)) = err malformed_claim
url_of (some (arr vs)) = err malformed_claim
url_of (some v) = if is_true (some v) then err malformed_claim else ok none

-- `claim["evidence"]["sourceUrl"]`
unfoldable pub claim_url : Fields → Result (Option String)
unfolding get
claim_url c = evidence_url (get "evidence" c)
  where
    evidence_url : Option Value → Result (Option String)
    evidence_url (some (obj es)) = url_of (get "sourceUrl" es)
    evidence_url _ = err malformed_claim

unfoldable pub claim_urls : List Fields → Result (List (Option String))
unfolding claim_url
claim_urls [] = ok []
claim_urls (c ∷ cs) = do u ← claim_url c; us ← claim_urls cs; ok (u ∷ us)

abbrev pub pinned_text : Option Value → Result String
pinned_text (some (str s)) = ok s
pinned_text _ = err invalid_pinned_claim

-- what a URL has, if there is one
abbrev pub then_some : (String → Option String) → Option String → Option String
then_some f none = none
then_some f (some u) = f u

-- `claim["text"]`, a text
unfoldable pub claim_texts : List Fields → Result (List String)
unfolding get
claim_texts [] = ok []
claim_texts (c ∷ cs) = do t ← pinned_text (get "text" c); ts ← claim_texts cs; ok (t ∷ ts)

-- `set(required) <= {…}`
unfoldable pub covers : List String → List (Option String) → Bool
covers required have = all_of (λ r. any (opt_eq (some r)) have) required

-- `"\n".join(texts)`
unfoldable pub join_lines : List String → String
join_lines [] = ""
join_lines (t ∷ []) = t
join_lines (t ∷ s ∷ rest) = text_append t (text_append "\n" (join_lines (s ∷ rest)))

-- materialize_selection
unfoldable pub materialize_selection : (String → Option String) → Context → Value → Result Selected
unfolding chosen id_texts claims_of claim_urls claim_texts covers join_lines lookup
materialize_selection host_of c output = do
  values ← chosen c output
  ids ← id_texts values
  require (leb (length ids) 4 && distinct ids) invalid_selected_ids
  claims ← claims_of c.aliases ids
  urls ← claim_urls claims
  require (covers c.required_hosts (map (then_some host_of) urls)) lacks_source_coverage
  require (covers c.required_facets (map (then_some (λ u. lookup u c.source_facets)) urls))
      lacks_source_coverage
  texts ← claim_texts claims
  ok (record {
    answer = join_lines (unique_ids [] texts);
    claims = claims;
    insufficient = is_nil claims;
  })
