-- ===== src/Packing/RoundTrip.antt =====
-- job_codec.py: what encode_job writes, decode_job reads back.
use parliament.Base.{
  ltb, leb, leb→le, le→leb, Bool-cases, &&-eq-true, ok-injective, Error, ok, require, >>=-eq-ok,
  >>-eq-ok, require-eq-ok, ◌≤◌, String, ◌≡◌, refl, ap, subst, inl, inr, true, false, Option, none,
  some, not_a_job, invalid_packed_job, packed_job_disagrees,
}
use parliament.Value.{Value, Fields, str, obj, end, field, get, same, same_refl}
use parliament.Packing.{
  Libraries, min_bytes, max_bytes, routing_of, required, object_of, packed_fields, shorter,
  pack_job, encode_job, same_option, routing_agrees, some_or, whole, unpack_text, packed_text,
  decode_packed, decode_fields, decode_job,
}

-- what the documentation of the libraries says, the compression at the text in question: json.loads
-- reads what canonical_json wrote, base64 gives back the bytes it was given, and zlib the text, in
-- one whole stream when the limit is not reached
pub record IsDocumented {T Z : Type 0} (k : Libraries T Z) (raw : T) : Type 0 where
  pub parse-json : (v : Value) → k.parse (k.json v) ≡ some v
  pub base64 : (z : Z) → k.of_base64 (k.to_base64 z) ≡ some z
  pub unzip-zip :
      k.size raw ≤ max_bytes
      → k.unzip (k.zip raw)
        ≡ some (record { text = raw; eof = true; unused_data = false; unconsumed_tail = false })

same_option_refl : (o : Option Value) → same_option o o ≡ true
unfolding same_option
same_option_refl none = refl
same_option_refl (some v) = same_refl v

required-eq : (o : Option Value) (v : Value) → required o ≡ ok v → o ≡ some v
unfolding required
required-eq none v h = absurd (let h' = h in cc)
required-eq (some w) v h = ap some (ok-injective h)

object_of-eq :
    (e : Error) (o : Option Value) (fs : Fields) → object_of e o ≡ ok fs → o ≡ some (obj fs)
unfolding object_of
object_of-eq e (some (obj gs)) fs h = ap (λ x. some (obj x)) (ok-injective h)
object_of-eq e none fs h = absurd (let h' = h in cc)
object_of-eq e (some parliament.Value.null) fs h = absurd (let h' = h in cc)
object_of-eq e (some (parliament.Value.bool b)) fs h = absurd (let h' = h in cc)
object_of-eq e (some (parliament.Value.num n)) fs h = absurd (let h' = h in cc)
object_of-eq e (some (str s)) fs h = absurd (let h' = h in cc)
object_of-eq e (some (parliament.Value.arr xs)) fs h = absurd (let h' = h in cc)

-- a plain text is read as it is
decode_plain :
    {T Z : Type 0} (k : Libraries T Z) (job : Fields)
    → IsDocumented k (k.json (obj job))
    → get "_format" job ≡ none
    → decode_job k (k.json (obj job)) ≡ ok job
unfolding decode_job some_or object_of decode_fields
decode_plain k job d plain = rw (d.parse-json (obj job)) (rw plain refl)

-- a packed text is read as the job that was packed
decode_packed_text :
    {T Z : Type 0} (k : Libraries T Z) (job context : Fields) (id kind key state : Value)
    → IsDocumented k (k.json (obj job))
    → k.size (k.json (obj job)) ≤ max_bytes
    → get "context" job ≡ some (obj context)
    → get "id" job ≡ some id
    → get "kind" job ≡ some kind
    → get "key" job ≡ some key
    → get "state" job ≡ some state
    → decode_job k (
        k.json (
          obj (
            packed_fields
              (k.to_base64 (k.zip (k.json (obj job))))
              id
              kind
              key
              state
              (routing_of context))))
      ≡ ok job
unfolding decode_job some_or object_of decode_fields decode_packed unpack_text routing_agrees get
decode_packed_text k job context id kind key state d small c i n y s = rw (d.parse-json _) (
    rw (d.base64 (k.zip (k.json (obj job)))) (
      rw (d.unzip-zip small) (
        rw (le→leb (k.size (k.json (obj job))) max_bytes small) (
          rw (d.parse-json (obj job)) (
            rw (i, n, y, s)
              (rw
                (
                  same_option_refl (some id),
                  same_option_refl (some kind),
                  same_option_refl (some key),
                  same_option_refl (some state),
                )
                (rw c (rw (same_option_refl (some (obj (routing_of context)))) refl))))))))

pack_job-decodes :
    {T Z : Type 0} (k : Libraries T Z) (job : Fields) (stored : T)
    → IsDocumented k (k.json (obj job))
    → get "_format" job ≡ none
    → pack_job k job (k.json (obj job)) ≡ ok stored
    → decode_job k stored ≡ ok job
unfolding pack_job
pack_job-decodes {T = T} k job stored d plain h =
    let raw = k.json (obj job) in
    let (g, h1) = >>-eq-ok (require (leb (k.size raw) max_bytes) _) _ h in
    let (context, c, h2) = >>=-eq-ok (object_of not_a_job (get "context" job)) _ h1 in
    let (id, i, h3) = >>=-eq-ok (required (get "id" job)) _ h2 in
    let (kind, n, h4) = >>=-eq-ok (required (get "kind" job)) _ h3 in
    let (key, y, h5) = >>=-eq-ok (required (get "key" job)) _ h4 in
    let (state, s, h6) = >>=-eq-ok (required (get "state" job)) _ h5 in
    let fields = packed_fields (k.to_base64 (k.zip raw)) id kind key state (routing_of context) in
    let packed =
      decode_packed_text k job context id kind key state d (leb→le _ _ (require-eq-ok _ _ g))
        (object_of-eq not_a_job (get "context" job) context c) (required-eq (get "id" job) id i)
        (required-eq (get "kind" job) kind n) (required-eq (get "key" job) key y)
        (required-eq (get "state" job) state s) in
    subst (λ x. decode_job k x ≡ ok job) (ok-injective h6) (either (k.json (obj fields)) packed)
  where
    either :
        (encoded : T)
        → decode_job k encoded ≡ ok job
        → decode_job k (shorter k encoded (k.json (obj job))) ≡ ok job
    either encoded e =
        unfold shorter in
        elim (Bool-cases (ltb (k.size encoded) (k.size (k.json (obj job))))) [
          | inl less ↦ rw less e
          | inr more ↦ rw more (decode_plain k job d plain)
        ]

-- With libraries that behave as documented, whatever encode_job stores of a job without a field
-- `_format`, plain or packed, decode_job reads back as that job.
pub decode_job-encode_job :
    {T Z : Type 0} (k : Libraries T Z) (job : Fields) (stored : T)
    → IsDocumented k (k.json (obj job))
    → get "_format" job ≡ none
    → encode_job k job ≡ ok stored
    → decode_job k stored ≡ ok job
unfolding encode_job
decode_job-encode_job k job stored d plain h =
    elim (Bool-cases (ltb (k.size (k.json (obj job))) min_bytes)) [
      | inl small ↦
          subst (λ x. decode_job k x ≡ ok job) (ok-injective (rw small at h))
            (decode_plain k job d plain)
      | inr large ↦ pack_job-decodes k job stored d plain (rw large at h)
    ]

routing_checked :
    {T Z : Type 0} (k : Libraries T Z) (value : Fields) (text : String) (restored : Fields)
    → unpack_text k value text ≡ ok restored
    → (same_option (get "id" restored) (get "id" value) ≡ true)
      × (same_option (get "state" restored) (get "state" value) ≡ true)
unfolding unpack_text routing_agrees
routing_checked k value text restored h =
    let (compressed, _, h1) = >>=-eq-ok (some_or invalid_packed_job (k.of_base64 text)) _ h in
    let (u, _, h2) = >>=-eq-ok (some_or invalid_packed_job (k.unzip compressed)) _ h1 in
    let (_, h3) = >>-eq-ok (require (whole k u) _) _ h2 in
    let (parsed, _, h4) = >>=-eq-ok (some_or invalid_packed_job (k.parse u.text)) _ h3 in
    let (inside, _, h5) = >>=-eq-ok (object_of not_a_job (some parsed)) _ h4 in
    let (g, h6) = >>-eq-ok (require (routing_agrees inside value) _) _ h5 in
    let (context, _, h7) = >>=-eq-ok (object_of packed_job_disagrees (get "context" inside)) _ h6 in
    let (_, h8) =
      >>-eq-ok (require (same_option (get "context" value) (some (obj (routing_of context)))) _) _
        h7 in
    let (a, state) =
      &&-eq-true _ (same_option (get "state" inside) (get "state" value)) (require-eq-ok _ _ g) in
    let (b, _) = &&-eq-true _ (same_option (get "key" inside) (get "key" value)) a in
    let (id, _) = &&-eq-true (same_option (get "id" inside) (get "id" value)) _ b in
    subst
      (λ x.
        (same_option (get "id" x) (get "id" value) ≡ true)
        × (same_option (get "state" x) (get "state" value) ≡ true))
      (ok-injective h8) (id, state)

-- A packed text whose visible routing fields differ from the job inside it is refused, whatever the
-- libraries do: what decode_job returns agrees with them.
pub decode_job-routing_agrees :
    {T Z : Type 0} (k : Libraries T Z) (stored : T) (value restored : Fields) (f : Value)
    → k.parse stored ≡ some (obj value)
    → get "_format" value ≡ some f
    → decode_job k stored ≡ ok restored
    → (same_option (get "id" restored) (get "id" value) ≡ true)
      × (same_option (get "state" restored) (get "state" value) ≡ true)
unfolding decode_job some_or object_of decode_fields
decode_job-routing_agrees k stored value restored f p e h =
    let h1 : decode_packed k value (packed_text (some f) (get "_packed" value)) ≡ ok restored =
      rw (p, e) at h in
    unpacked (packed_text (some f) (get "_packed" value)) h1
  where
    unpacked :
        (o : Option String)
        → decode_packed k value o ≡ ok restored
        → (same_option (get "id" restored) (get "id" value) ≡ true)
          × (same_option (get "state" restored) (get "state" value) ≡ true)
    unpacked none e = unfold decode_packed in absurd (let e' = e in cc)
    unpacked (some t) e = routing_checked k value t restored (unfold decode_packed in e)
