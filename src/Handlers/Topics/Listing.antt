-- ===== src/Handlers/Topics/Listing.antt =====
-- `TopicDelete`, `TopicACL`, `TopicListAll` and `ListSubsByTopic` of handlers/topics.go, as sequences of
-- steps. The state is the store and the broker; the JSON forms are arguments.
use argo_messaging.Base.{Text, text, Error, not, ◌&&◌, Option, List, [], ◌∷◌, if◌then◌else◌}
use argo_messaging.Base.Int.{pos, wrap32}
use argo_messaging.Stores.Times.{Zulu}
use argo_messaging.Stores.Interface.{Store}
use argo_messaging.Schemas.{Lang}
use argo_messaging.Topics.{Topic, PaginatedTopics, find, remove_topic}
use argo_messaging.Subscriptions.Operations.{find_by_topic}
use argo_messaging.Auth.{get_acl, is_project_admin, is_service_admin, is_publisher}
use argo_messaging.Handlers.{
  done, fail, ApiError, invalid_data, not_found, missing_or, generic_internal, generic_backend,
}
use argo_messaging.Handlers.Offsets.{broker_topic}
use argo_messaging.Handlers.Subscriptions.{page_size_of}
use argo_messaging.Handlers.Steps.{
  M, ◌>>=◌, ◌>>◌, answer, export, pure, refuse_error, value_or, result_or, on_store, read_store,
  on_second,
}

abbrev no_topic : ApiError
no_topic = not_found (text "Topic")

abbrev first_topic : {W : Type 0} → List Topic → M W Text Topic
first_topic [] = answer (fail no_topic)
first_topic (topic ∷ topics) = pure topic

-- Whose topics are listed: a publisher's own, unless an administrator asks.
abbrev pub listing_publisher : List Text → Text → Text
listing_publisher roles user_uuid =
    if not (is_project_admin roles) && not (is_service_admin roles) && is_publisher roles
    then user_uuid
    else []

module _ {Raw S B : Type 0} (z : Zulu) (lang : Lang Raw) (store : Store S)
    (project_uuid : Text) where
  -- `TopicDelete`; `delete_topic` is the broker's, whose error is only logged.
  unfoldable pub topic_delete : (Text → B → B × Error) → Text → M (S × B) Text (Unit {0})
  topic_delete delete_topic url_topic = do
    e ← on_store (remove_topic z lang store project_uuid url_topic)
    refuse_error (missing_or no_topic generic_internal) e
    logged ← on_second (delete_topic (broker_topic project_uuid url_topic))
    answer (done [])

  -- `ListSubsByTopic`
  unfoldable pub list_subs_by_topic : (List Text → Option Text) → Text → M (S × B) Text (Unit {0})
  list_subs_by_topic to_json url_topic = do
    (res, e) ← on_store (find z lang store project_uuid [] url_topic [] (pos 0))
    refuse_error (λ _. generic_backend) e
    topic ← first_topic res.topics
    (subs, e') ← read_store (find_by_topic z store project_uuid topic.name)
    refuse_error (λ _. generic_backend) e'
    export (to_json subs)

  -- `TopicACL`
  unfoldable pub topic_acl : (List Text → Option Text) → Text → M (S × B) Text (Unit {0})
  topic_acl to_json url_topic = do
    res ← read_store (get_acl store project_uuid (text "topics") url_topic)
    acl ← result_or (λ _. no_topic) res
    export (to_json acl)

  -- `TopicListAll`
  unfoldable pub topic_list_all :
      List Text → Text → (PaginatedTopics → Option Text) → Text → Text → M (S × B) Text (Unit {0})
  topic_list_all roles user_uuid to_json page_token page_size = do
    size ← value_or (invalid_data (text "Invalid page size")) (page_size_of page_size)
    (res, e) ← on_store (
        find z lang store project_uuid (listing_publisher roles user_uuid) [] page_token
          (wrap32 size))
    refuse_error (λ _. invalid_data (text "Invalid page token")) e
    export (to_json res)
