-- ===== src/Value/Objects.antt =====
-- Python dicts and lists as JSON values: the truth of a value, `{**fields, key: value}`, and what
-- raises on a value of another type. The fields of an object stand in the order of their keys.
use Prim.Native.Nat.{Ordering}
use Prim.Native.String.{compare as text_compare}
use parliament.Base.{
  if◌then◌else◌, Bool-cases, str_eq_refl, ok-injective, Result, ok, err, zero, String, ◌≡◌, refl,
  inl, inr, Bool, true, false, not, Option, none, some, str_eq, str_eq_iff, missing_key,
  not_an_object,
}
use parliament.Value.{
  Value, Fields, Items, obj, arr, str, num, bool, null, field, end, cons, nil, pos, get,
}

abbrev pub text_lt : String → String → Bool
text_lt s t = elim (text_compare s t) [ Ordering.lt ↦ true | _ ↦ false ]

-- `{**fields, key: value}`
unfoldable pub put_field : String → Value → Fields → Fields
put_field k v end = field k v end
put_field k v (field j w fs) =
    if str_eq j k
    then field k v fs
    else if text_lt k j
    then field k v (field j w fs)
    else field j w (put_field k v fs)

-- `{**fields, **more}`
unfoldable pub merge_fields : Fields → Fields → Fields
unfolding put_field
merge_fields fs end = fs
merge_fields fs (field k v more) = merge_fields (put_field k v fs) more

-- `{k: v for k, v in fields.items() if k != key}`
unfoldable pub drop_field : String → Fields → Fields
drop_field k end = end
drop_field k (field j v fs) = if str_eq j k then drop_field k fs else field j v (drop_field k fs)

-- The fields of a value that the program stores as an object.
abbrev pub fields_of : Value → Fields
fields_of (obj fs) = fs
fields_of _ = end

-- `bool(value)`, with None for a missing field
abbrev pub is_true : Option Value → Bool
is_true none = false
is_true (some null) = false
is_true (some (bool b)) = b
is_true (some (num (pos zero))) = false
is_true (some (num _)) = true
is_true (some (str s)) = not (str_eq s "")
is_true (some (arr nil)) = false
is_true (some (arr (cons v vs))) = true
is_true (some (obj end)) = false
is_true (some (obj (field k v fs))) = true

-- `value == text`
abbrev pub is_text : String → Option Value → Bool
is_text t (some (str s)) = str_eq s t
is_text t _ = false

-- `fields[key]`
abbrev pub at_key : Option Value → Result Value
at_key none = err missing_key
at_key (some v) = ok v

-- a value in a key of a dict: a list or an object raises a TypeError
unfoldable pub hashable : Option Value → Bool
hashable (some (obj fs)) = false
hashable (some (arr xs)) = false
hashable _ = true

-- a value whose fields are read
abbrev pub object_or : Value → Result Fields
object_or (obj fs) = ok fs
object_or _ = err not_an_object

-- `for item in fields.get(key, [])`, of which an empty object or text has no item
abbrev pub iterated : Option Value → Result Items
iterated none = ok nil
iterated (some (arr xs)) = ok xs
iterated (some (obj end)) = ok nil
iterated (some (str s)) = if str_eq s "" then ok nil else err not_an_object
iterated (some _) = err not_an_object

-- `a and b`, where both may raise and `b` only counts after a true `a`
abbrev pub and_then : Result Bool → Result Bool → Result Bool
and_then (err e) later = err e
and_then (ok false) later = ok false
and_then (ok true) later = later

-- `all(p(item) for item in items)` and `any(…)`, which stop at the first item that decides
unfoldable pub all_items : (Value → Result Bool) → Items → Result Bool
all_items p nil = ok true
all_items p (cons v vs) = and_then (p v) (all_items p vs)

abbrev pub or_then : Result Bool → Result Bool → Result Bool
or_then (err e) later = err e
or_then (ok true) later = ok true
or_then (ok false) later = later

unfoldable pub any_items : (Value → Result Bool) → Items → Result Bool
any_items p nil = ok false
any_items p (cons v vs) = or_then (p v) (any_items p vs)

pub and_then-eq-true : (a b : Result Bool) → and_then a b ≡ ok true → (a ≡ ok true) × (b ≡ ok true)
and_then-eq-true (err e) b h = cc
and_then-eq-true (ok false) b h = absurd (let x = ok-injective h in cc)
and_then-eq-true (ok true) b h = (refl, h)

-- What a field holds after it was put there, and that no other field changes.
pub get-put_field : (k : String) (v : Value) (fs : Fields) → get k (put_field k v fs) ≡ some v
unfolding get put_field
get-put_field k v end = rw (str_eq_refl k) refl
get-put_field k v (field j w fs) = elim (Bool-cases (str_eq j k)) [
  | inl same ↦ rw (same, str_eq_refl k) refl
  | inr other ↦ elim (Bool-cases (text_lt k j)) [
    | inl before ↦ rw (other, before, str_eq_refl k) refl
    | inr after ↦ rw (other, after, other) (get-put_field k v fs)
  ]
]

pub get-put_field_ne :
    (i k : String) (v : Value) (fs : Fields)
    → str_eq k i ≡ false
    → get i (put_field k v fs) ≡ get i fs
unfolding get put_field
get-put_field_ne i k v end ne = rw ne refl
get-put_field_ne i k v (field j w fs) ne = elim (Bool-cases (str_eq j k)) [
  | inl same ↦ rw (same, (str_eq_iff j k).0 same, ne) refl
  | inr other ↦ elim (Bool-cases (text_lt k j)) [
    | inl before ↦ rw (other, before, ne) refl
    | inr after ↦ rw (other, after) (kept (str_eq j i) (get-put_field_ne i k v fs ne))
  ]
]
  where
    kept :
        (b : Bool)
        → get i (put_field k v fs) ≡ get i fs
        → (if b then some w else get i (put_field k v fs)) ≡ (if b then some w else get i fs)
    kept true e = refl
    kept false e = e
