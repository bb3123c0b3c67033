-- ===== src/Schemas/Operations.antt =====
-- `Find`, `Create`, `Update`, `Delete` and `ExistsWithName` of schemas/schema.go.
use argo_messaging.Base.{
  Text, text, Error, Result, ok, err, panic, text_eq, Bool, true, false, ◌||◌, not, ◌==◌, is_empty,
  if◌then◌else◌, Option, none, some, List, [], ◌∷◌,
}
use argo_messaging.Base.Base64
use argo_messaging.Stores.Models.{QSchema}
use argo_messaging.Stores.Interface.{Store}
use argo_messaging.Projects.{get_name_by_uuid, has_items}
use argo_messaging.Schemas.{Lang, Schema, format_schema_ref, check_schema, to_lower}

abbrev pub could_not_load : Text
could_not_load = text "Could not load the schema"

module _ {Raw S : Type 0} (lang : Lang Raw) (store : Store S) where
  abbrev decoded : Option Text → Option Raw
  decoded none = none
  decoded (some b) = lang.unmarshal b

  -- The schema of a stored record, if its content can be read.
  schema_of : Text → QSchema → S → Option (Schema Raw)
  schema_of project_uuid q s = elim (decoded (Base64.decode q.raw_schema)) [
    | none ↦ none
    | some raw ↦ some (record {
      project_uuid = q.project_uuid;
      uuid = q.uuid;
      name = q.name;
      full_name = format_schema_ref (get_name_by_uuid store project_uuid s) q.name;
      type = q.type;
      raw_schema = raw;
    })
  ]

  abbrev cons_schema : Option (Schema Raw) → Result (List (Schema Raw)) → Result (List (Schema Raw))
  cons_schema none rest = err could_not_load
  cons_schema (some q) (ok qs) = ok (q ∷ qs)
  cons_schema (some q) (err e) = err e
  cons_schema (some q) panic = panic

  schemas_of : Text → List QSchema → S → Result (List (Schema Raw))
  unfolding schema_of
  schemas_of project_uuid [] s = ok []
  schemas_of project_uuid (q ∷ qs) s =
      cons_schema (schema_of project_uuid q s) (schemas_of project_uuid qs s)

  -- `Find`
  unfoldable pub find : Text → Text → Text → S → Result (List (Schema Raw))
  unfolding schemas_of
  find project_uuid schema_uuid schema_name s =
      let (qs, e) = store.query_schemas project_uuid schema_uuid schema_name s in
      elim e [ some message ↦ err message | none ↦ schemas_of project_uuid qs s ]

  -- `Delete`
  unfoldable pub delete : Text → S → S × Error
  delete = store.delete_schema

  -- `ExistsWithName`
  unfoldable pub exists_with_name : Text → Text → S → Result Bool
  exists_with_name project_uuid schema_name s =
      let (qs, e) = store.query_schemas project_uuid [] schema_name s in
      elim e [ some message ↦ err (text "backend error") | none ↦ ok (has_items qs) ]

  -- The outcome of a call that changes the store and returns a schema.
  abbrev pub Outcome : Type 0
  Outcome = S × Result (Schema Raw)

  abbrev insert_checked : Text → Text → Text → Text → Raw → Option Text → S → Outcome
  insert_checked project_uuid schema_uuid name schema_type raw none s = (s, err (text "json"))
  insert_checked project_uuid schema_uuid name schema_type raw (some bytes) s =
      elim (check_schema lang (to_lower schema_type) raw) [
        | some message ↦ (s, err message)
        | none ↦
            let (s', e) =
              store.insert_schema project_uuid schema_uuid name (to_lower schema_type)
                (Base64.encode bytes) s in
            elim e [
              | some message ↦ (s', err message)
              | none ↦ (
                s',
                ok (record {
                  project_uuid = [];
                  uuid = schema_uuid;
                  name = name;
                  full_name = format_schema_ref (get_name_by_uuid store project_uuid s') name;
                  type = to_lower schema_type;
                  raw_schema = raw;
                }),
              )
            ]
      ]

  -- `Create`
  unfoldable pub create : Text → Text → Text → Text → Raw → S → Outcome
  create project_uuid schema_uuid name schema_type raw s =
      elim (exists_with_name project_uuid name s) [
        | err message ↦ (s, err message)
        | panic ↦ (s, panic)
        | ok true ↦ (s, err (text "exists"))
        | ok false ↦
            insert_checked project_uuid schema_uuid name schema_type raw (lang.marshal raw) s
      ]

  -- The new name, where it is given and is not the schema's own, must be free.
  unfoldable pub rename : Schema Raw → Text → S → Result Text
  rename existing new_name s =
      if is_empty new_name || existing.name == new_name
      then ok existing.name
      else elim (exists_with_name existing.project_uuid new_name s) [
        | err message ↦ err message
        | panic ↦ panic
        | ok true ↦ err (text "exists")
        | ok false ↦ ok new_name
      ]

  -- A content that is not empty, once it is checked and written as text.
  abbrev encoded : Raw → Error → Option Text → Result (Raw × Text)
  encoded raw (some message) bytes = err message
  encoded raw none none = err (text "json")
  encoded raw none (some b) = ok (raw, Base64.encode b)

  -- The old content, which is checked if there is a new type.
  abbrev unchanged : Raw → Bool → Error → Result (Raw × Text)
  unchanged raw true (some message) = err message
  unchanged raw true none = ok (raw, [])
  unchanged raw false e = ok (raw, [])

  -- The content of the updated schema and what the store is given for it, empty if it is not new.
  unfoldable pub new_content : Schema Raw → Text → Text → Raw → Result (Raw × Text)
  new_content existing new_type type raw =
      if lang.is_empty_object raw
      then unchanged existing.raw_schema (not (is_empty new_type))
          (check_schema lang type existing.raw_schema)
      else encoded raw (check_schema lang type raw) (lang.marshal raw)

  abbrev update_content : Schema Raw → Text → Text → Text → Result (Raw × Text) → S → Outcome
  update_content existing name new_name type (err message) s = (s, err message)
  update_content existing name new_name type panic s = (s, panic)
  update_content existing name new_name type (ok (raw, content)) s =
      let (s', e) = store.update_schema existing.uuid new_name type content s in
      elim e [
        | some message ↦ (s', err message)
        | none ↦
            let project = get_name_by_uuid store existing.project_uuid s' in
            (
              s',
              ok (record existing {
                name = name;
                type = type;
                raw_schema = raw;
                full_name = format_schema_ref project name;
              }),
            )
      ]

  abbrev update_named : Schema Raw → Text → Text → Raw → Result Text → S → Outcome
  update_named existing new_name new_type raw (err message) s = (s, err message)
  update_named existing new_name new_type raw panic s = (s, panic)
  update_named existing new_name new_type raw (ok name) s =
      let type = if is_empty new_type then existing.type else to_lower new_type in
      update_content existing name new_name type (new_content existing new_type type raw) s

  -- `Update`
  unfoldable pub update : Schema Raw → Text → Text → Raw → S → Outcome
  update existing new_name new_type raw s =
      update_named existing new_name new_type raw (rename existing new_name s) s
