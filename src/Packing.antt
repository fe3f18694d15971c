-- ===== src/Packing.antt =====
-- worker/src/parliament_worker/graphrag/job_codec.py: the text under which a job is stored, plain or
-- packed. Parameters are Python's libraries: `json` and `parse` for
-- canonical_json and json.loads, `zip` and `unzip` for zlib, `to_base64` and `of_base64` for base64.
pub mod RoundTrip
mod Samples
use parliament.Base.{
  ltb, leb, ◌==◌, if◌then◌else◌, ltb→lt, lt→ltb, leb→le, le→leb, Bool-cases, Option-cases,
  str_eq_refl, opt_eq, opt_eq_sound, &&-eq-true, ||-eq-false, &&-false, some-eq, ok-injective,
  str_eq_comm, length, take, select, any, find, is_nil, All, length-append, length-take-le,
  All-append, All-map, Error, Result, ok, err, ◌>>=◌, ◌>>◌, require, >>=-eq-ok, >>-eq-ok,
  require-eq-ok, ℕ, zero, suc, ◌+◌, ◌-◌, ◌*◌, ◌≤◌, ◌<◌, min, max, String, ◌≡◌, refl, sym, ap, ◌∙◌,
  subst, ◌≢◌, ◌↔◌, ◌⊎◌, inl, inr, Bool, true, false, ◌&&◌, ◌||◌, not, Option, none, some, List, [],
  ◌∷◌, ◌++◌, map, arith, str_eq, str_eq_iff, job_too_large, not_a_job, unsupported_packed_job,
  invalid_packed_job, packed_job_disagrees,
}
use parliament.Value.{Value, Fields, str, obj, end, field, get, same}

-- what `decoder.decompress(compressed, MAX_JOB_BYTES + 1)` leaves
pub record Unpacked (T : Type 0) : Type 0 where
  pub text : T
  pub eof : Bool
  pub unused_data : Bool
  pub unconsumed_tail : Bool

-- the libraries on a type of texts and one of compressed bytes; `size` counts the bytes of a text
pub record Libraries (T Z : Type 0) : Type 0 where
  pub size : T → ℕ
  pub json : Value → T
  pub parse : T → Option Value
  pub zip : T → Z
  pub unzip : Z → Option (Unpacked T)
  pub to_base64 : Z → String
  pub of_base64 : String → Option Z

-- PACKED_FORMAT, MIN_JOB_BYTES and MAX_JOB_BYTES
abbrev pub packed_format : String
packed_format = "zlib-json-v1"

abbrev pub min_bytes : ℕ
min_bytes = 1024

abbrev pub max_bytes : ℕ
max_bytes = 4000000

-- one of ROUTING_CONTEXT_KEYS, where the context has it
abbrev pub with_key : String → Option Value → Fields → Fields
with_key k none rest = rest
with_key k (some v) rest = field k v rest

pub routing_of : Fields → Fields
unfolding get
routing_of context =
    with_key "artifact_key" (get "artifact_key" context)
      (with_key "question_id" (get "question_id" context) end)

-- `job[key]`
pub required : Option Value → Result Value
required none = err invalid_packed_job
required (some v) = ok v

pub object_of : Error → Option Value → Result Fields
object_of e (some (obj fs)) = ok fs
object_of e _ = err e

abbrev pub packed_fields : String → Value → Value → Value → Value → Fields → Fields
packed_fields text id kind key state routing = field "_format" (str packed_format) (
    field "_packed" (str text) (
      field "context" (obj routing)
        (field "id" id (field "key" key (field "kind" kind (field "state" state end))))))

-- the packed text, if it is shorter
pub shorter : {T Z : Type 0} → Libraries T Z → T → T → T
shorter k encoded raw = if ltb (k.size encoded) (k.size raw) then encoded else raw

-- the longer texts of encode_job
pub pack_job : {T Z : Type 0} → Libraries T Z → Fields → T → Result T
unfolding routing_of required object_of shorter get
pack_job k job raw = do
  require (leb (k.size raw) max_bytes) job_too_large
  context ← object_of not_a_job (get "context" job)
  id ← required (get "id" job)
  kind ← required (get "kind" job)
  key ← required (get "key" job)
  state ← required (get "state" job)
  let text = k.to_base64 (k.zip raw)
  ok (shorter k (k.json (obj (packed_fields text id kind key state (routing_of context)))) raw)

-- encode_job
pub encode_job : {T Z : Type 0} → Libraries T Z → Fields → Result T
unfolding pack_job
encode_job k job =
    let raw = k.json (obj job) in if ltb (k.size raw) min_bytes then ok raw else pack_job k job raw

pub same_option : Option Value → Option Value → Bool
unfolding same
same_option none none = true
same_option (some v) (some w) = same v w
same_option _ _ = false

-- `restored.get(key) != value.get(key)` for the four keys, negated
pub routing_agrees : Fields → Fields → Bool
unfolding same_option get
routing_agrees restored value =
    same_option (get "id" restored) (get "id" value)
    && same_option (get "kind" restored) (get "kind" value)
    && same_option (get "key" restored) (get "key" value)
    && same_option (get "state" restored) (get "state" value)

pub some_or : {A : Type 0} → Error → Option A → Result A
some_or e none = err e
some_or e (some a) = ok a

-- the bytes are whole, and not too many
abbrev pub whole : {T Z : Type 0} → Libraries T Z → Unpacked T → Bool
whole k u = leb (k.size u.text) max_bytes && u.eof && not u.unused_data && not u.unconsumed_tail

pub unpack_text : {T Z : Type 0} → Libraries T Z → Fields → String → Result Fields
unfolding some_or object_of routing_agrees routing_of same_option get
unpack_text k value text = do
  compressed ← some_or invalid_packed_job (k.of_base64 text)
  u ← some_or invalid_packed_job (k.unzip compressed)
  require (whole k u) invalid_packed_job
  parsed ← some_or invalid_packed_job (k.parse u.text)
  restored ← object_of not_a_job (some parsed)
  require (routing_agrees restored value) packed_job_disagrees
  context ← object_of packed_job_disagrees (get "context" restored)
  require (same_option (get "context" value) (some (obj (routing_of context)))) packed_job_disagrees
  ok restored

abbrev pub packed_text : Option Value → Option Value → Option String
packed_text (some (str f)) (some (str t)) = if str_eq f packed_format then some t else none
packed_text _ _ = none

pub decode_packed : {T Z : Type 0} → Libraries T Z → Fields → Option String → Result Fields
unfolding unpack_text
decode_packed k value none = err unsupported_packed_job
decode_packed k value (some text) = unpack_text k value text

-- a text without the field `_format` is the job itself
pub decode_fields : {T Z : Type 0} → Libraries T Z → Fields → Option Value → Result Fields
unfolding decode_packed get
decode_fields k value none = ok value
decode_fields k value (some f) = decode_packed k value (packed_text (some f) (get "_packed" value))

-- decode_job
pub decode_job : {T Z : Type 0} → Libraries T Z → T → Result Fields
unfolding decode_fields some_or object_of get
decode_job k stored = do
  parsed ← some_or not_a_job (k.parse stored)
  value ← object_of not_a_job (some parsed)
  decode_fields k value (get "_format" value)
