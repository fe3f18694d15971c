-- ===== src/Packing/Samples.antt =====
-- A job that is packed and read back with toy libraries, whose texts are the values themselves.
use parliament.Base.{if◌then◌else◌, ok, ℕ, ◌≡◌, refl, true, false, none, some, str_eq}
use parliament.Value.{Value, Fields, str, obj, end, field, get}
use parliament.Packing.{
  Libraries, routing_of, required, object_of, packed_fields, shorter, pack_job, encode_job,
  decode_job,
}
use parliament.Packing.RoundTrip.{IsDocumented, decode_job-encode_job}

abbrev context : Fields
context = field "artifact_key" (str "k") (field "snapshot" (str "s") end)

abbrev job : Fields
job = field "context" (obj context) (
    field "id" (str "gr_a")
      (field "key" (str "a") (field "kind" (str "extract") (field "state" (str "planned") end))))

-- a job is long, a packed job is short
abbrev size_of : Value → ℕ
size_of (obj (field k v fs)) = if str_eq k "_format" then 900 else 2000
size_of v = 1

abbrev libraries : Libraries Value (Unit {0})
libraries = record {
  size = size_of;
  json = λ v. v;
  parse = λ v. some v;
  zip = λ v. tt;
  unzip = λ z.
      some (record { text = obj job; eof = true; unused_data = false; unconsumed_tail = false });
  to_base64 = λ z. "eJw=";
  of_base64 = λ s. some tt;
}

abbrev stored : Fields
stored =
    packed_fields "eJw=" (str "gr_a") (str "extract") (str "a") (str "planned")
      (field "artifact_key" (str "k") end)

pack_run : encode_job libraries job ≡ ok (obj stored)
unfolding encode_job pack_job routing_of required object_of shorter get
pack_run = refl

libraries-IsDocumented : IsDocumented libraries (obj job)
libraries-IsDocumented = record {
  parse-json = λ v. refl;
  base64 = λ z. refl;
  unzip-zip = λ small. refl;
}

no_format : get "_format" job ≡ none
unfolding get
no_format = refl

decode_job-encode_job_example : decode_job libraries (obj stored) ≡ ok job
decode_job-encode_job_example =
    decode_job-encode_job libraries job (obj stored) libraries-IsDocumented no_format pack_run

packed_format_field : get "_format" stored ≡ some (str "zlib-json-v1")
unfolding get
packed_format_field = refl
