-- ===== src/Stores/Mongo/Schemas.antt =====
-- The schemas of the store in MongoDB.
use argo_messaging.Base.{
  Text, text_eq, Error, ◌==◌, Bool, true, ◌&&◌, none, List, [], is_empty, if◌then◌else◌,
}
use argo_messaging.Stores.Models.{QSchema}
use argo_messaging.Stores.Mongo.{
  Driver, Mongo, ◌>>=◌, ◌>>◌, pure, query, fatal_error, on_schemas, on_topics, inserted,
}

abbrev agrees : Text → Text → Bool
agrees value field = if is_empty value then true else field == value

abbrev or_old : Text → Text → Text
or_old new old = if is_empty new then old else new

-- The selector of `QuerySchemas`.
unfoldable pub schema_selector : Text → Text → Text → QSchema → Bool
schema_selector project_uuid schema_uuid name q =
    q.project_uuid == project_uuid && agrees schema_uuid q.uuid && agrees name q.name

module _ {C : Type 0 → Type 0} (driver : Driver C) where
  -- `InsertSchema`
  unfoldable pub insert_schema : Text → Text → Text → Text → Text → Mongo C Error
  insert_schema project_uuid schema_uuid name type raw = inserted (
      on_schemas (
        driver.insert (record {
          project_uuid = project_uuid;
          uuid = schema_uuid;
          name = name;
          type = type;
          raw_schema = raw;
        })))

  -- `QuerySchemas`
  unfoldable pub query_schemas : Text → Text → Text → Mongo C (List QSchema × Error)
  query_schemas project_uuid schema_uuid name = do
    results ← query (λ db. driver.all (schema_selector project_uuid schema_uuid name) db.schemas)
    pure (results, none)

  -- `UpdateSchema`; where nothing is given, the `$set` has no field.
  unfoldable pub update_schema : Text → Text → Text → Text → Mongo C Error
  update_schema schema_uuid name type raw =
      if is_empty name && is_empty type && is_empty raw
      then on_schemas (driver.update_nothing (λ (q : QSchema). q.uuid == schema_uuid))
      else on_schemas (
          driver.update (λ q. q.uuid == schema_uuid)
            (λ q. record q {
              name = or_old name q.name;
              type = or_old type q.type;
              raw_schema = or_old raw q.raw_schema;
            }))

  -- `DeleteSchema`: that the schema is missing is fatal; the error of `UpdateAll` is not looked at.
  unfoldable pub delete_schema : Text → Mongo C Error
  delete_schema schema_uuid = do
    e ← on_schemas (driver.remove (λ q. q.uuid == schema_uuid))
    fatal_error e
    ignored ←
        on_topics (
          driver.update_all (λ t. t.schema_uuid == schema_uuid)
            (λ t. record t { schema_uuid = [] }))
    pure none
