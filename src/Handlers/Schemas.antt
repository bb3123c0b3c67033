-- ===== src/Handlers/Schemas.antt =====
-- The handlers of handlers/schemas.go, as sequences of steps on any store. JSON is an argument.
use argo_messaging.Base.{
  Text, text, ◌==◌, text_eq, Bool, true, false, Option, none, List, [], ◌∷◌, is_empty,
  if◌then◌else◌, Result,
}
use argo_messaging.Base.Base64
use argo_messaging.Stores.Interface.{Store}
use argo_messaging.Schemas
use argo_messaging.Schemas.{Lang, Schema, json, avro, extract_schema, validate_messages}
use argo_messaging.Handlers.{
  done, Body, ApiError, invalid_request_body, invalid_argument, invalid_data, not_found, conflict,
  generic_internal,
}
use argo_messaging.Handlers.Steps.{
  M, ◌>>=◌, ◌>>◌, answer, pure, refuse_error, value_or, result_or, read_body, call, get,
}

abbrev pub no_schema : ApiError
no_schema = not_found (text "Schema")

-- How the handlers answer an error of `Create` or `Update`.
abbrev pub schema_error : Text → ApiError
schema_error e =
    if e == text "exists"
    then conflict (text "Schema")
    else if e == text "unsupported"
    then invalid_data (text "Schema type can only be 'json' or 'avro'")
    else invalid_data e

abbrev pub validation_error : Text → ApiError
validation_error e =
    if e == text "500"
    then generic_internal (text "Could not load schema for topic")
    else invalid_data e

abbrev first_schema : {Raw W : Type 0} → List (Schema Raw) → M W Text (Schema Raw)
first_schema [] = value_or no_schema none
first_schema (schema ∷ schemas) = pure schema

-- The new name of a request: that of the full name, if it has one.
abbrev name_of : {Raw W : Type 0} → Schema Raw → M W Text Text
name_of posted =
    if is_empty posted.full_name
    then pure posted.name
    else do (project, name) ← result_or invalid_data (extract_schema posted.full_name); pure name

module _ {Raw S : Type 0} (lang : Lang Raw) (store : Store S) (project_uuid : Text) where
  abbrev found_schemas : Text → M S Text (List (Schema Raw))
  found_schemas name = do
    res ← get (Schemas.Operations.find lang store project_uuid [] name)
    result_or generic_internal res

  -- The schema of the URL.
  abbrev found_schema : Text → M S Text (Schema Raw)
  found_schema name = do schemas ← found_schemas name; first_schema schemas

  module _ (to_json : Schema Raw → Text) where
    -- `SchemaCreate`; of the request, the type and the content are used.
    unfoldable pub schema_create : Text → Body (Schema Raw) → Text → M S Text (Unit {0})
    schema_create url_schema body uuid = do
      posted ← read_body (invalid_argument (text "Schema")) body
      res ← call (
          Schemas.Operations.create lang store project_uuid uuid url_schema posted.type
            posted.raw_schema)
      schema ← result_or schema_error res
      answer (done (to_json schema))

    -- `SchemaListOne`
    unfoldable pub schema_list_one : Text → M S Text (Unit {0})
    schema_list_one url_schema = do schema ← found_schema url_schema; answer (done (to_json schema))

    -- `SchemaUpdate`
    unfoldable pub schema_update : Text → Body (Schema Raw) → M S Text (Unit {0})
    schema_update url_schema body = do
      existing ← found_schema url_schema
      posted ← read_body (invalid_argument (text "Schema")) body
      name ← name_of posted
      res ← call (Schemas.Operations.update lang store existing name posted.type posted.raw_schema)
      schema ← result_or schema_error res
      answer (done (to_json schema))

  -- `SchemaListAll`
  unfoldable pub schema_list_all : (List (Schema Raw) → Text) → M S Text (Unit {0})
  schema_list_all to_json = do schemas ← found_schemas []; answer (done (to_json schemas))

  -- `SchemaDelete`
  unfoldable pub schema_delete : Text → M S Text (Unit {0})
  schema_delete url_schema = do
    schema ← found_schema url_schema
    e ← call (Schemas.Operations.delete lang store schema.uuid)
    refuse_error generic_internal e
    answer (done [])

  -- The message to validate: a whole body for JSON, and its field "data" for Avro. `data_of` takes a body
  -- apart and looks for the field.
  unfoldable pub payloads :
      (Text → Option (Option Text)) → Text → Bool → Bool → M S Text (List Text)
  payloads data_of bytes true is_avro = pure (Base64.encode bytes ∷ [])
  payloads data_of bytes false true = do
    field ← value_or invalid_request_body (data_of bytes)
    data_field ← value_or (invalid_argument (text "Schema Payload")) field
    pure (data_field ∷ [])
  payloads data_of bytes false false = pure []

  -- `SchemaValidateMessage`
  unfoldable pub schema_validate_message :
      (Text → Option (Option Text)) → Text → Result Text → M S Text (Unit {0})
  schema_validate_message data_of url_schema body = do
    schema ← found_schema url_schema
    bytes ← result_or invalid_data body
    ds ← payloads data_of bytes (schema.type == json) (schema.type == avro)
    refuse_error validation_error (validate_messages lang schema ds)
    answer (done (text "{\n \"message\": \"Message validated successfully\"\n}"))
