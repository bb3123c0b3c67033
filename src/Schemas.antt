-- ===== src/Schemas.antt =====
-- schemas/schema.go: the schemas of messages. JSON, the checker of JSON schemas and the codec of Avro
-- are parameters.
pub mod Reference
pub mod Operations
use argo_messaging.Base.{
  ℕ, ◌+◌, ◌-◌, Text, text, split, Error, is_nil, Result, ok, err, ◌==◌, text_eq, Bool, true, false,
  ◌&&◌, ◌||◌, not, Option, none, some, List, [], ◌∷◌, ◌++◌, map, is_empty, leb, if◌then◌else◌,
}
use argo_messaging.Base.Base64
use argo_messaging.Stores.Models.{QSchema}
use argo_messaging.Stores.Interface.{Store}
use argo_messaging.Projects.{get_name_by_uuid, has_items}

-- What the package takes from the libraries: JSON objects, and the two kinds of schema.
pub record Lang (Raw : Type 0) : Type 0 where
  -- `len(rawSchema) == 0`, as a nil map has it
  pub is_empty_object : Raw → Bool
  pub empty_object : Raw
  pub unmarshal : Text → Option Raw
  pub marshal : Raw → Option Text
  -- the errors of compiling a JSON schema and of building an Avro codec
  pub compile_json : Raw → Error
  pub compile_avro : Text → Error
  -- the error of validating a payload, under a schema that compiles
  pub validate_json : Raw → Text → Error
  pub validate_avro : Text → Text → Error

-- `strings.ToLower`, on ASCII
abbrev lower : ℕ → ℕ
lower c = if leb b'A' c && leb c b'Z' then c + 32 else c

unfoldable pub to_lower : Text → Text
to_lower = map lower

abbrev pub json : Text
json = text "json"

abbrev pub avro : Text
avro = text "avro"

pub record Schema (Raw : Type 0) : Type 0 where
  pub project_uuid : Text
  pub uuid : Text
  pub name : Text
  pub full_name : Text
  pub type : Text
  pub raw_schema : Raw

abbrev pub wrong_reference : Text
wrong_reference = text "wrong schema name declaration"

reference_of : List Text → Result (Text × Text)
reference_of (t0 ∷ t1 ∷ t2 ∷ t3 ∷ []) =
    if not (t0 == text "projects") || not (t2 == text "schemas")
    then err wrong_reference
    else ok (t1, t3)
reference_of _ = err wrong_reference

-- `ExtractSchema`
unfoldable pub extract_schema : Text → Result (Text × Text)
unfolding reference_of
extract_schema reference = reference_of (split b'/' reference)

-- `FormatSchemaRef`
unfoldable pub format_schema_ref : Text → Text → Text
format_schema_ref project_name schema_name =
    text "projects/" ++ (project_name ++ (text "/schemas/" ++ schema_name))

module _ {Raw : Type 0} (lang : Lang Raw) where
  avro_error : Option Text → Error
  avro_error none = some (text "json")
  avro_error (some b) = lang.compile_avro b

  -- `checkSchema`
  unfoldable pub check_schema : Text → Raw → Error
  unfolding avro_error
  check_schema schema_type content =
      if to_lower schema_type == json
      then lang.compile_json content
      else if to_lower schema_type == avro
      then avro_error (lang.marshal content)
      else some (text "unsupported")

  -- The error of one message: its payload does not decode, or is not valid.
  message_error : (Text → Error) → Option Text → Error
  message_error valid none = some (text "Message is not in valid base64 enocding")
  message_error valid (some payload) = valid payload

  -- The loops of `ValidateMessages` over the payloads; the first error ends them.
  first_error : (Text → Error) → List Text → Error
  unfolding message_error
  first_error valid [] = none
  first_error valid (d ∷ ds) =
      let rest = first_error valid ds in
      let e = message_error valid (Base64.decode d) in if is_nil e then rest else e

  abbrev internal : Error
  internal = some (text "500")

  validate_avro_messages : Option Text → List Text → Error
  unfolding first_error
  validate_avro_messages none ds = internal
  validate_avro_messages (some b) ds =
      if is_nil (lang.compile_avro b) then first_error (lang.validate_avro b) ds else internal

  -- `ValidateMessages`, on the data of the messages.
  unfoldable pub validate_messages : Schema Raw → List Text → Error
  unfolding first_error validate_avro_messages
  validate_messages schema ds =
      if schema.type == json
      then (if is_nil (lang.compile_json schema.raw_schema)
          then first_error (lang.validate_json schema.raw_schema) ds
          else internal)
      else if schema.type == avro
      then validate_avro_messages (lang.marshal schema.raw_schema) ds
      else internal
