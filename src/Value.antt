-- ===== src/Value.antt =====
-- worker/src/parliament_worker/graphrag/store_schema.py: JSON values, labels, clock readings and
-- the refusal of credentials. An object is the list of its fields in the order of the sorted keys
-- that `canonical_json` writes, so that two values have one canonical text when they are equal.
-- Numbers in values are integers.
pub mod Objects
use Prim.Native.Char.{code}
use parliament.Base.{
  ℕ, ◌+◌, String, ◌≡◌, refl, List, [], ◌∷◌, Bool, true, false, ◌&&◌, ◌||◌, not, Option, none, some,
  arith, leb, ◌==◌, if◌then◌else◌, str_eq, str_eq_iff, any, length, Result, ok, err,
  invalid_identifier, invalid_clock, require, str_eq_refl, &&-eq-true, ap, is_nil,
}

pub data ℤ : Type 0 where
  pos : ℕ → ℤ
  negsuc : ℕ → ℤ

mutual
  -- the fields of an object in the order of their keys
  pub data Fields : Type 0 where
    field : String → Value → Fields → Fields
    end : Fields

  pub data Value : Type 0 where
    obj : Fields → Value
    arr : Items → Value
    str : String → Value
    num : ℤ → Value
    bool : Bool → Value
    null : Value

  pub data Items : Type 0 where
    cons : Value → Items → Items
    nil : Items

-- Equality of canonical texts.
abbrev pub same_int : ℤ → ℤ → Bool
same_int (pos a) (pos b) = a == b
same_int (negsuc a) (negsuc b) = a == b
same_int _ _ = false

abbrev pub same_bool : Bool → Bool → Bool
same_bool true true = true
same_bool false false = true
same_bool _ _ = false

unfoldable mutual
  pub same : Value → Value → Bool
  same null null = true
  same (bool a) (bool b) = same_bool a b
  same (num a) (num b) = same_int a b
  same (str a) (str b) = str_eq a b
  same (arr xs) (arr ys) = same_items xs ys
  same (obj xs) (obj ys) = same_fields xs ys
  same _ _ = false

  pub same_items : Items → Items → Bool
  same_items nil nil = true
  same_items (cons x xs) (cons y ys) = same x y && same_items xs ys
  same_items _ _ = false

  pub same_fields : Fields → Fields → Bool
  same_fields end end = true
  same_fields (field k x xs) (field j y ys) = str_eq k j && same x y && same_fields xs ys
  same_fields _ _ = false

mutual
  unfolding same same_items same_fields

  same_refl-value : (v : Value) → same v v ≡ true
  same_refl-value null = refl
  same_refl-value (bool true) = refl
  same_refl-value (bool false) = refl
  same_refl-value (num (pos a)) = ground arith
  same_refl-value (num (negsuc a)) = ground arith
  same_refl-value (str a) = str_eq_refl a
  same_refl-value (arr xs) = same_refl-items xs
  same_refl-value (obj xs) = same_refl-fields xs

  same_refl-items : (v : Items) → same_items v v ≡ true
  same_refl-items nil = refl
  same_refl-items (cons x xs) = ground (arith, same_refl-value x, same_refl-items xs)

  same_refl-fields : (v : Fields) → same_fields v v ≡ true
  same_refl-fields end = refl
  same_refl-fields (field k x xs) =
      ground (arith, str_eq_refl k, same_refl-value x, same_refl-fields xs)

mutual
  unfolding same same_items same_fields

  same_sound : (v w : Value) → same v w ≡ true → v ≡ w
  same_sound null null h = refl
  same_sound (bool a) (bool b) h = ground arith
  same_sound (num a) (num b) h = ground arith
  same_sound (str a) (str b) h = ap str ((str_eq_iff a b).0 h)
  same_sound (arr xs) (arr ys) h = ap arr (same_items_sound xs ys h)
  same_sound (obj xs) (obj ys) h = ap obj (same_fields_sound xs ys h)
  same_sound _ _ h = cc

  same_items_sound : (v w : Items) → same_items v w ≡ true → v ≡ w
  same_items_sound nil nil h = refl
  same_items_sound (cons x xs) (cons y ys) h =
      let (p, q) = &&-eq-true (same x y) (same_items xs ys) h in
      cc (same_sound x y p, same_items_sound xs ys q)
  same_items_sound _ _ h = cc

  same_fields_sound : (v w : Fields) → same_fields v w ≡ true → v ≡ w
  same_fields_sound end end h = refl
  same_fields_sound (field k x xs) (field j y ys) h =
      let (kp, q) = &&-eq-true (str_eq k j && same x y) (same_fields xs ys) h in
      let (k', p) = &&-eq-true (str_eq k j) (same x y) kp in
      cc ((str_eq_iff k j).0 k', same_sound x y p, same_fields_sound xs ys q)
  same_fields_sound _ _ h = cc

pub same_refl : (v : Value) → same v v ≡ true
same_refl v = same_refl-value v

pub eq_of_same : (v w : Value) → same v w ≡ true → v ≡ w
eq_of_same v w h = same_sound v w h

pub eq_of_same_fields : (v w : Fields) → same_fields v w ≡ true → v ≡ w
eq_of_same_fields v w h = same_fields_sound v w h

pub same_fields_refl : (v : Fields) → same_fields v v ≡ true
same_fields_refl v = same_refl-fields v

mutual
  pub plain : Value → Value
  plain (bool true) = num (pos 1)
  plain (bool false) = num (pos 0)
  plain (arr xs) = arr (plain_items xs)
  plain (obj xs) = obj (plain_fields xs)
  plain v = v

  pub plain_items : Items → Items
  plain_items nil = nil
  plain_items (cons x xs) = cons (plain x) (plain_items xs)

  pub plain_fields : Fields → Fields
  plain_fields end = end
  plain_fields (field k x xs) = field k (plain x) (plain_fields xs)

-- Python's `==` of decoded values, where True is 1 and False is 0, at any depth
unfoldable pub equals : Value → Value → Bool
unfolding plain same
equals v w = same (plain v) (plain w)

pub plain_of_equals : (v w : Value) → equals v w ≡ true → plain v ≡ plain w
unfolding equals
plain_of_equals v w h = same_sound (plain v) (plain w) h

-- `value.get(key)`
unfoldable pub get : String → Fields → Option Value
get k end = none
get k (field j v fs) = if str_eq j k then some v else get k fs

-- `isinstance(x, str)` at an optional value
abbrev pub is_str : Option Value → Bool
is_str (some (str s)) = true
is_str _ = false

abbrev pub codes : String → List ℕ
codes String.[] = []
codes (String.◌∷◌ c s) = code c ∷ codes s

-- validate_label: a text of 1 to 4096 characters, none of them NUL
unfoldable pub label_valid : String → Bool
label_valid s =
    let cs = codes s in not (is_nil cs) && leb (length cs) 4096 && not (any (λ c. c == 0) cs)

unfoldable pub validate_label : String → Result (Unit {0})
validate_label s = require (label_valid s) invalid_identifier

-- A float handed in as a time: ticks from the epoch, a time before it, or an infinity or NaN.
pub data Reading : Type 0 where
  ticks : ℕ → Reading
  negative : ℕ → Reading
  not_finite : Reading

-- store_clock: the given reading if it is finite and not negative, else `time.time()`
unfoldable pub store_clock : ℕ → Option Reading → Result ℕ
store_clock time none = ok time
store_clock time (some (ticks n)) = ok n
store_clock time (some _) = err invalid_clock

-- `str.lower` as far as it can produce one of the forbidden ASCII words: the capitals, and the
-- Kelvin sign.
lower : ℕ → ℕ
lower c = if leb 65 c && leb c 90 then c + 32 else if c == 0x212A then 107 else c

-- `.replace("_", "").replace("-", "")`
is_separator : ℕ → Bool
is_separator c = c == 95 || c == 45

normalized : List ℕ → List ℕ
unfolding lower is_separator
normalized [] = []
normalized (c ∷ cs) = if is_separator (lower c) then normalized cs else lower c ∷ normalized cs

same_codes : List ℕ → List ℕ → Bool
same_codes [] [] = true
same_codes (a ∷ xs) (b ∷ ys) = a == b && same_codes xs ys
same_codes _ _ = false

unfoldable pub forbidden_key : String → Bool
unfolding normalized same_codes
forbidden_key k =
    any (λ w. same_codes (normalized (codes k)) (codes w))
      ("authorization" ∷ "apikey" ∷ "accesstoken" ∷ "inferencetoken" ∷ "factorytoken" ∷ [])

-- reject_credentials: does the value hold a field of a forbidden name, at any depth?
unfoldable mutual
  unfolding forbidden_key

  pub has_credentials : Value → Bool
  has_credentials (arr xs) = has_credentials_items xs
  has_credentials (obj fs) = has_credentials_fields fs
  has_credentials _ = false

  pub has_credentials_items : Items → Bool
  has_credentials_items nil = false
  has_credentials_items (cons x xs) = has_credentials x || has_credentials_items xs

  pub has_credentials_fields : Fields → Bool
  has_credentials_fields end = false
  has_credentials_fields (field k v fs) =
      forbidden_key k || has_credentials v || has_credentials_fields fs
