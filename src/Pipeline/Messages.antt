-- ===== src/Pipeline/Messages.antt =====
-- The envelope of ragent/pipeline/messages.py. The bytes on the wire are those of Python's `json`,
-- which is a parameter here (`Codec`), and so are `str()` of a value that is no text, and the
-- random trace id.
pub mod Roundtrip
use ragent.Common.{
  ℕ, zero, suc, ◌+◌, String, ◌≡◌, refl, Bool, true, false, ◌&&◌, not, Option, none, some, List, [],
  ◌∷◌, str_eq, ltb, if◌then◌else◌, is_empty, filter,
}
use ragent.Ingest.Formats.{FormatFamily, family_value, family_of}
use ragent.Pipeline.Json.{
  Json, null, bool, int, negative, float, str, arr, obj, Fields, end, field, field_of, is_falsy,
}

pub record StageMessage : Type 0 where
  pub document_id : String
  pub run_id : String
  pub stage : String
  pub family : FormatFamily
  pub pipeline_version : String
  pub tenant_id : String
  pub attempt : ℕ
  pub trace_id : String
  pub meta : Fields

-- MalformedMessageError, one constructor for each text.
pub data Malformed : Type 0 where
  undecodable : Malformed
  not_an_object : Malformed
  missing_fields : List String → Malformed
  unknown_family : Json → Malformed
  bad_attempt : Json → Malformed
  bad_meta : Malformed

pub data Decoded {ℓ} (A : Type ℓ) : Type ℓ where
  ok : A → Decoded A
  malformed : Malformed → Decoded A

-- An error ends the chain.
infixl 5 ◌>>=◌ ◌>>◌
abbrev pub ◌>>=◌ {ℓ κ} : {V : Type ℓ} {W : Type κ} → Decoded V → (V → Decoded W) → Decoded W
◌>>=◌ step next = elim step [ ok value ↦ next value | malformed problem ↦ malformed problem ]

abbrev pub ◌>>◌ {ℓ} : {W : Type ℓ} → Decoded (Unit {0}) → Decoded W → Decoded W
step >> next = step >>= λ _. next

-- What `to_bytes` hands to `json.dumps`, in the order in which `sort_keys` writes it.
unfoldable pub payload : StageMessage → Fields
payload m = field "attempt" (int m.attempt) (
    field "document_id" (str m.document_id) (
      field "family" (str (family_value m.family)) (
        field "meta" (obj m.meta) (
          field "pipeline_version" (str m.pipeline_version) (
            field "run_id" (str m.run_id) (
              field "stage" (str m.stage)
                (field "tenant_id" (str m.tenant_id) (field "trace_id" (str m.trace_id) end))))))))

-- The wire format: `json.dumps(…).encode("utf-8")`, and `json.loads(raw.decode("utf-8"))` with
-- `none` where either step raises.
pub record Codec : Type 1 where
  pub Bytes : Type 0
  pub dumps : Json → Bytes
  pub loads : Bytes → Option Json

abbrev required : List String
required = "document_id" ∷ "run_id" ∷ "stage" ∷ "family" ∷ "pipeline_version" ∷ []

abbrev lacks : Fields → String → Bool
lacks fields key = elim (field_of fields key) [ none ↦ true | some _ ↦ false ]

-- The fields of a dict, of which `None` and any other value have none.
as_object : Json → Decoded Fields
as_object (obj fields) = ok fields
as_object _ = malformed not_an_object

require_fields : Fields → Decoded (Unit {0})
require_fields fields =
    let missing = filter (lacks fields) required in
    if is_empty missing then ok tt else malformed (missing_fields missing)

read_family : Option Json → Decoded FormatFamily
read_family (some (str text)) = elim (family_of text) [
  | none ↦ malformed (unknown_family (str text))
  | some family ↦ ok family
]
read_family (some v) = malformed (unknown_family v)
read_family none = malformed (unknown_family null)

-- `data.get("attempt", 1)`. A Python `bool` is an `int`.
read_attempt : Option Json → Decoded ℕ
read_attempt none = ok 1
read_attempt (some (int n)) = if ltb n 1 then malformed (bad_attempt (int n)) else ok n
read_attempt (some (bool true)) = ok 1
read_attempt (some v) = malformed (bad_attempt v)

-- `data.get("meta") or {}`
read_meta : Option Json → Decoded Fields
read_meta none = ok end
read_meta (some (obj fields)) = ok fields
read_meta (some v) = if is_falsy v then ok end else malformed bad_meta

module _ (render : Json → String) where
  -- `str(v)`
  to_str : Json → String
  to_str (str t) = t
  to_str v = render v

  -- `str(data[key])`, for a key that is there.
  text_of : Option Json → String
  unfolding to_str
  text_of none = ""
  text_of (some v) = to_str v

  -- `str(data.get(key, default))`
  text_or : Option Json → String → String
  unfolding to_str
  text_or none default = default
  text_or (some v) default = to_str v

  -- `str(data.get("trace_id") or uuid.uuid4().hex)`
  trace_of : Option Json → String → String
  unfolding to_str
  trace_of none fresh = fresh
  trace_of (some v) fresh = if is_falsy v then fresh else to_str v

  unfoldable pub from_payload : String → Json → Decoded StageMessage
  unfolding as_object require_fields read_family read_attempt read_meta text_of text_or trace_of
  from_payload fresh v = do
    fields ← as_object v
    require_fields fields
    family ← read_family (field_of fields "family")
    attempt ← read_attempt (field_of fields "attempt")
    meta ← read_meta (field_of fields "meta")
    ok (record {
      document_id = text_of (field_of fields "document_id");
      run_id = text_of (field_of fields "run_id");
      stage = text_of (field_of fields "stage");
      family = family;
      pipeline_version = text_of (field_of fields "pipeline_version");
      tenant_id = text_or (field_of fields "tenant_id") "default";
      attempt = attempt;
      trace_id = trace_of (field_of fields "trace_id") fresh;
      meta = meta;
    })

  module _ (codec : Codec) where
    open codec use {Bytes, dumps, loads}

    unfoldable pub to_bytes : StageMessage → Bytes
    unfolding payload
    to_bytes m = dumps (obj (payload m))

    unfoldable pub from_bytes : String → Bytes → Decoded StageMessage
    unfolding from_payload
    from_bytes fresh raw = elim (loads raw) [
      | none ↦ malformed undecodable
      | some v ↦ from_payload fresh v
    ]

unfoldable pub with_family : FormatFamily → StageMessage → StageMessage
with_family family m = record m { family = family }

unfoldable pub for_stage : String → StageMessage → StageMessage
for_stage stage m = record m { stage = stage; attempt = 1 }

unfoldable pub retried : StageMessage → StageMessage
retried m = record m { attempt = m.attempt + 1 }
