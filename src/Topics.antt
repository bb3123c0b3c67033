-- ===== src/Topics.antt =====
-- topics/topic.go: the topics, over any store.
pub mod Creation
pub mod Restoration
use argo_messaging.Base.{
  Text, text, Error, is_nil, Result, ok, err, panic, ◌==◌, text_eq, Bool, true, false, ◌&&◌, Option,
  none, some, List, [], ◌∷◌, ◌++◌, map, is_empty, if◌then◌else◌,
}
use argo_messaging.Base.Base64
use argo_messaging.Base.Int.{ℤ, pos}
use argo_messaging.Stores.Models.{Time, Rate, QTopic}
use argo_messaging.Stores.Times.{Zulu}
use argo_messaging.Stores.Interface.{Store, Page}
use argo_messaging.Projects.{get_name_by_uuid, has_items}
use argo_messaging.Schemas
use argo_messaging.Schemas.{Lang, Schema, format_schema_ref}

pub record Topic : Type 0 where
  pub project_uuid : Text
  pub name : Text
  pub full_name : Text
  pub latest_publish : Time
  pub publish_rate : Rate
  pub schema : Text
  pub created_on : Text

pub record TopicMetrics : Type 0 where
  pub msg_num : ℤ
  pub total_bytes : ℤ
  pub latest_publish : Time
  pub publish_rate : Rate

pub record PaginatedTopics : Type 0 where
  pub topics : List Topic
  pub next_page_token : Text
  pub total_size : ℤ  -- int32

abbrev pub no_topics : PaginatedTopics
no_topics = record { topics = []; next_page_token = []; total_size = pos 0 }

abbrev pub no_rate : Rate
no_rate = record { count = pos 0; nanoseconds = 0 }

abbrev pub empty_topic : Topic
empty_topic = record {
  project_uuid = [];
  name = [];
  full_name = [];
  latest_publish = 0;
  publish_rate = no_rate;
  schema = [];
  created_on = [];
}

abbrev pub no_metrics : TopicMetrics
no_metrics = record {
  msg_num = pos 0;
  total_bytes = pos 0;
  latest_publish = 0;
  publish_rate = no_rate;
}

-- The full name that `New` gives.
unfoldable pub full_topic_name : Text → Text → Text
full_topic_name project_name name = text "/projects/" ++ (project_name ++ (text "/topics/" ++ name))

module _ {Raw S : Type 0} (z : Zulu) (lang : Lang Raw) (store : Store S) where
  -- The reference to a topic's schema; one that cannot be read is logged and left out.
  abbrev schema_reference : Text → Result (List (Schema Raw)) → Text
  schema_reference project_name (ok (q ∷ qs)) = format_schema_ref project_name q.name
  schema_reference project_name _ = []

  -- `New`, and what `Find` adds to it.
  unfoldable pub new_topic : Text → Text → S → QTopic → Topic
  new_topic project_uuid project_name s t = record {
    project_uuid = t.project_uuid;
    name = t.name;
    full_name = full_topic_name project_name t.name;
    latest_publish = t.latest_publish;
    publish_rate = t.publish_rate;
    schema =
        if is_empty t.schema_uuid
        then []
        else schema_reference project_name
            (Schemas.Operations.find lang store project_uuid t.schema_uuid [] s);
    created_on = z.format t.created_on;
  }

  -- `Find` after the store has answered.
  found : Text → S → Page QTopic → PaginatedTopics × Error
  found project_uuid s page =
      if is_nil page.error
      then (let project_name = get_name_by_uuid store project_uuid s in
          if is_empty project_name then (no_topics, some (text "invalid project")) else (
            record {
              topics = map (new_topic project_uuid project_name s) page.items;
              next_page_token = Base64.encode page.next_page_token;
              total_size = page.total_size;
            },
            none,
          ))
      else (no_topics, page.error)

  find_decoded : Text → Text → Text → Option Text → ℤ → S → S × (PaginatedTopics × Error)
  unfolding found
  find_decoded project_uuid user_uuid name none page_size s =
      (s, (no_topics, some (text "illegal base64 data")))
  find_decoded project_uuid user_uuid name (some token) page_size s =
      let (s', page) = store.query_topics project_uuid user_uuid name token page_size s in
      (s', found project_uuid s' page)

  -- `Find`
  unfoldable pub find : Text → Text → Text → Text → ℤ → S → S × (PaginatedTopics × Error)
  unfolding find_decoded
  find project_uuid user_uuid name page_token page_size =
      find_decoded project_uuid user_uuid name (Base64.decode page_token) page_size

  -- `HasTopic`
  unfoldable pub has_topic : Text → Text → S → S × Bool
  has_topic project_uuid name s =
      let (s', res) = find project_uuid [] name [] (pos 0) s in
      (s', has_items res.0.topics && is_nil res.1)

  -- The only topic of a result of one.
  abbrev only : List Topic → Option Topic
  only (t ∷ []) = some t
  only _ = none

  -- What `CreateTopic` reads back.
  reflected : S × (PaginatedTopics × Error) → S × (Topic × Error)
  reflected (s, (res, e)) = elim (only res.topics) [
    | some t ↦ (s, (t, e))
    | none ↦ (s, (empty_topic, some (text "backend error")))
  ]

  -- `CreateTopic`
  unfoldable pub create_topic : Text → Text → Text → Time → S → S × (Topic × Error)
  unfolding reflected
  create_topic project_uuid name schema_uuid created_on s =
      let (s1, exists) = has_topic project_uuid name s in
      if exists
      then (s1, (empty_topic, some (text "exists")))
      else (let (s2, e) = store.insert_topic project_uuid name schema_uuid created_on s1 in
          if is_nil e
          then reflected (find project_uuid [] name [] (pos 0) s2)
          else (s2, (empty_topic, some (text "backend error"))))

  -- `RemoveTopic`
  unfoldable pub remove_topic : Text → Text → S → S × Error
  remove_topic project_uuid name s =
      let (s1, exists) = has_topic project_uuid name s in
      if exists then store.remove_topic project_uuid name s1 else (s1, some (text "not found"))

  abbrev metrics_of : QTopic → TopicMetrics
  metrics_of t = record {
    msg_num = t.msg_num;
    total_bytes = t.total_bytes;
    latest_publish = t.latest_publish;
    publish_rate = t.publish_rate;
  }

  -- The loop of `FindMetric`: the last topic's values, unless a project has no name.
  metric_loop : TopicMetrics → List QTopic → S → TopicMetrics × Error
  metric_loop m [] s = (m, none)
  metric_loop m (t ∷ ts) s =
      let rest = metric_loop (metrics_of t) ts s in
      if is_empty (get_name_by_uuid store t.project_uuid s)
      then (m, some (text "invalid project"))
      else rest

  -- `FindMetric`
  unfoldable pub find_metric : Text → Text → S → S × (TopicMetrics × Error)
  unfolding metric_loop
  find_metric project_uuid name s =
      let (s', page) = store.query_topics project_uuid [] name [] (pos 0) s in
      if has_items page.items
      then (let (m, e) = metric_loop no_metrics page.items s' in
          (s', (m, elim e [ some message ↦ some message | none ↦ page.error ])))
      else (s', (no_metrics, some (text "not found")))
