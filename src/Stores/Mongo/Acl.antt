-- ===== src/Stores/Mongo/Acl.antt =====
-- The access lists of the store in MongoDB, which stand in the topics and subscriptions.
use argo_messaging.Base.{
  Text, text, text_eq, Error, Result, ok, err, ◌==◌, ◌&&◌, none, some, List, [], ◌∷◌, map, contains,
  if◌then◌else◌, ◌⊎◌, inl, inr,
}
use argo_messaging.Stores.Models.{QSub, QTopic, QAcl}
use argo_messaging.Stores.Mongo.{
  Driver, Mongo, returned, ◌>>=◌, pure, query, on_topics, on_subscriptions,
}
use argo_messaging.Stores.Mongo.Subs.{sub_selector}
use argo_messaging.Stores.Mongo.Topics.{topic_selector}

abbrev wrong_type : Text
wrong_type = text "wrong resource type"

-- A call on one of the two collections, by the type of the resource.
abbrev by_resource :
    {C : Type 0 → Type 0} {A : Type 0} → Text → Mongo C A → Mongo C A → Mongo C A → Mongo C A
by_resource resource on_topic on_sub otherwise =
    if resource == text "topics"
    then on_topic
    else if resource == text "subscriptions"
    then on_sub
    else otherwise

abbrev first_acl : List (List Text) → Result QAcl
first_acl [] = err (text "not found")
first_acl (acl ∷ acls) = ok (record { acl = acl })

abbrev one_error : {D : Type 0} → Text ⊎ D → Error
one_error (inl e) = some e
one_error (inr d) = none

module _ {C : Type 0 → Type 0} (driver : Driver C) where
  -- A change of the list of a topic or subscription.
  abbrev change_acl : Text → Text → Text → (List Text → List Text) → Mongo C Error
  change_acl project_uuid resource name change =
      by_resource resource
        (on_topics
          (driver.update (topic_selector project_uuid name) (λ t. record t { acl = change t.acl })))
        (on_subscriptions
          (driver.update (sub_selector project_uuid name) (λ s. record s { acl = change s.acl })))
        (pure (some wrong_type))

  -- `QueryACL`
  unfoldable pub query_acl : Text → Text → Text → Mongo C (Result QAcl)
  query_acl project_uuid resource name =
      by_resource resource
        (do
          results ← query (λ db. driver.all (topic_selector project_uuid name) db.topics)
          pure (first_acl (map (λ (t : QTopic). t.acl) results)))
        (do
          results ← query (λ db. driver.all (sub_selector project_uuid name) db.subscriptions)
          pure (first_acl (map (λ (s : QSub). s.acl) results)))
        (pure (err wrong_type))

  -- `ExistsInACL`
  unfoldable pub exists_in_acl : Text → Text → Text → Text → Mongo C Error
  exists_in_acl project_uuid resource name user_uuid =
      by_resource resource
        (λ db. returned db (
          one_error (
            driver.one (λ t. topic_selector project_uuid name t && contains user_uuid t.acl)
              db.topics)))
        (λ db. returned db (
          one_error (
            driver.one (λ s. sub_selector project_uuid name s && contains user_uuid s.acl)
              db.subscriptions)))
        (pure (some wrong_type))

  -- `ModACL`
  unfoldable pub mod_acl : Text → Text → Text → List Text → Mongo C Error
  mod_acl project_uuid resource name acl = change_acl project_uuid resource name (λ _. acl)

  -- `AppendToACL`
  unfoldable pub append_to_acl : Text → Text → Text → List Text → Mongo C Error
  append_to_acl project_uuid resource name acl =
      change_acl project_uuid resource name (λ old. driver.add_to_set old acl)

  -- `RemoveFromACL`
  unfoldable pub remove_from_acl : Text → Text → Text → List Text → Mongo C Error
  remove_from_acl project_uuid resource name acl =
      change_acl project_uuid resource name (λ old. driver.pull_all old acl)
