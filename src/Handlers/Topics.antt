-- ===== src/Handlers/Topics.antt =====
-- `TopicCreate`, `TopicListOne` and `TopicModACL` of handlers/topics.go. The JSON form of a topic is an
-- argument.
pub mod Answers
pub mod Listing
pub mod Access
use argo_messaging.Base.{
  Text, text, Error, is_nil, ◌==◌, text_eq, Bool, true, false, Option, none, some, List, [], ◌∷◌,
  is_empty, if◌then◌else◌, Result, ok, err, panic, ◌⊎◌, inl, inr,
}
use argo_messaging.Base.Int.{ℤ, pos}
use argo_messaging.Stores.Models.{Time}
use argo_messaging.Stores.Times.{Zulu}
use argo_messaging.Stores.Interface.{Store}
use argo_messaging.Schemas
use argo_messaging.Schemas.{Lang, Schema, extract_schema}
use argo_messaging.Topics.{Topic, PaginatedTopics, find, create_topic}
use argo_messaging.Auth.{are_valid_users, mod_acl}
use argo_messaging.Handlers.{
  Write, respond_ok, respond_err, Outcome, written, panicked, done, fail, Body, unreadable,
  malformed, parsed, ApiError, invalid_request_body, invalid_argument, invalid_data, not_found,
  conflict, generic_internal, generic_backend, export_json,
}

-- The end of a handler that exports its result.
abbrev pub export_writes : Option Text → List (Write Text)
export_writes none = respond_err export_json ∷ []
export_writes (some json) = respond_ok json ∷ []

-- What follows `CreateTopic`. After an error other than "exists" the handler goes on.
abbrev pub created : (Topic → Option Text) → Topic × Error → Outcome Text
created to_json (topic, none) = written (export_writes (to_json topic))
created to_json (topic, some e) =
    if e == text "exists"
    then fail (conflict (text "Topic"))
    else written (respond_err (generic_internal e) ∷ export_writes (to_json topic))

module _ {Raw S : Type 0} (z : Zulu) (lang : Lang Raw) (store : Store S)
    (project_uuid url_topic : Text) where
  abbrev uuid_of : Result (List (Schema Raw)) → Option (ApiError ⊎ Text)
  uuid_of (ok []) = some (inl (not_found (text "Schema")))
  uuid_of (ok (q ∷ qs)) = some (inr q.uuid)
  uuid_of (err e) = some (inl (generic_internal e))
  uuid_of panic = none

  abbrev uuid_of_reference : Result (Text × Text) → S → Option (ApiError ⊎ Text)
  uuid_of_reference (ok (project, name)) s =
      uuid_of (Schemas.Operations.find lang store project_uuid [] name s)
  uuid_of_reference (err e) s = some (inl (invalid_data e))
  uuid_of_reference panic s = none

  -- `schemaUUID`: the error of a schema that is named and not found; `none` is a panic.
  unfoldable pub schema_uuid_of : Text → S → Option (ApiError ⊎ Text)
  schema_uuid_of schema_ref s =
      if is_empty schema_ref then some (inr []) else uuid_of_reference (extract_schema schema_ref) s

  abbrev pub with_schema :
      (Topic → Option Text) → Time → Option (ApiError ⊎ Text) → S → S × Outcome Text
  with_schema to_json now none s = (s, panicked)
  with_schema to_json now (some (inl e)) s = (s, fail e)
  with_schema to_json now (some (inr schema_uuid)) s =
      let (s', r) = create_topic z lang store project_uuid url_topic schema_uuid now s in
      (s', created to_json r)

  -- `TopicCreate`; a request without a body names no schema.
  unfoldable pub topic_create : (Topic → Option Text) → Time → Body Text → S → S × Outcome Text
  topic_create to_json now unreadable s = (s, fail invalid_request_body)
  topic_create to_json now malformed s = (s, fail invalid_request_body)
  topic_create to_json now (parsed schema_ref) s =
      with_schema to_json now (schema_uuid_of schema_ref s) s

  abbrev first_of : (Topic → Option Text) → PaginatedTopics × Error → Outcome Text
  first_of to_json (res, some e) = fail generic_backend
  first_of to_json (res, none) = elim res.topics [
    | [] ↦ fail (not_found (text "Topic"))
    | topic ∷ topics ↦ written (export_writes (to_json topic))
  ]

  -- `TopicListOne`
  unfoldable pub topic_list_one : (Topic → Option Text) → S → S × Outcome Text
  topic_list_one to_json s =
      let (s', results) = find z lang store project_uuid [] url_topic [] (pos 0) s in
      (s', first_of to_json results)

  abbrev modified : S × Error → S × Outcome Text
  modified (s, none) = (s, done [])
  modified (s, some e) =
      (s, fail (if e == text "not found" then not_found (text "Topic") else generic_internal e))

  -- The error of `AreValidUsers`.
  abbrev no_users : Text → ApiError
  no_users message = record { code = 404; message = message; status = text "NOT_FOUND" }

  abbrev pub with_users : List Text → Error → S → S × Outcome Text
  with_users users (some e) s = (s, fail (no_users e))
  with_users users none s = modified (mod_acl store project_uuid (text "topics") url_topic users s)

  -- `TopicModACL`
  unfoldable pub topic_mod_acl : Body (List Text) → S → S × Outcome Text
  topic_mod_acl unreadable s = (s, fail invalid_request_body)
  topic_mod_acl malformed s = (s, fail (invalid_argument (text "Topic ACL")))
  topic_mod_acl (parsed users) s = with_users users (are_valid_users store project_uuid users s).1 s
