-- ===== src/Stores/Mock/Schemas.antt =====
-- The schemas of the store in memory.
use argo_messaging.Base.{
  Text, Error, ◌==◌, text_eq, Bool, ◌&&◌, Option, none, some, List, [], ◌∷◌, ◌++◌, true, is_empty,
  modify_first, modify_all, remove_first, filter, if◌then◌else◌,
}
use argo_messaging.Stores.Models.{QSchema, QTopic}
use argo_messaging.Stores.Mock.State.{Mock, not_found}

-- `InsertSchema`
unfoldable pub insert_schema : Text → Text → Text → Text → Text → Mock → Mock × Error
insert_schema project_uuid schema_uuid name type raw mk =
    let schema : QSchema = record {
      project_uuid = project_uuid;
      uuid = schema_uuid;
      name = name;
      type = type;
      raw_schema = raw;
    } in
    (record mk { schema_list = mk.schema_list ++ (schema ∷ []) }, none)

-- The four loops of `QuerySchemas`, of which one runs: an empty argument selects nothing.
abbrev agrees : Text → Text → Bool
agrees wanted given = if is_empty wanted then true else given == wanted

-- `QuerySchemas`
unfoldable pub query_schemas : Text → Text → Text → Mock → List QSchema × Error
query_schemas project_uuid schema_uuid name mk = (
  filter (λ q. q.project_uuid == project_uuid && agrees schema_uuid q.uuid && agrees name q.name)
      mk.schema_list,
  none,
)

abbrev or_old : Text → Text → Text
or_old new old = if is_empty new then old else new

abbrev pub set_schemas : Option (List QSchema) → Mock → Mock × Error
set_schemas (some ss) mk = (record mk { schema_list = ss }, none)
set_schemas none mk = (mk, some not_found)

-- `UpdateSchema`
unfoldable pub update_schema : Text → Text → Text → Text → Mock → Mock × Error
update_schema schema_uuid name type raw mk =
    set_schemas
      (modify_first (λ q. q.uuid == schema_uuid)
        (λ q. record q {
          name = or_old name q.name;
          type = or_old type q.type;
          raw_schema = or_old raw q.raw_schema;
        })
        mk.schema_list)
      mk

abbrev drop_schema : Text → Option (List QSchema) → Mock → Mock × Error
drop_schema schema_uuid (some ss) mk = (
  record mk {
    schema_list = ss;
    topic_list =
        modify_all (λ t. t.schema_uuid == schema_uuid)
          (λ (t : QTopic). record t { schema_uuid = [] }) mk.topic_list;
  },
  none,
)
drop_schema schema_uuid none mk = (mk, some not_found)

-- `DeleteSchema`: topics of the schema are left without one.
unfoldable pub delete_schema : Text → Mock → Mock × Error
delete_schema schema_uuid mk =
    drop_schema schema_uuid (remove_first (λ q. q.uuid == schema_uuid) mk.schema_list) mk
