-- ===== src/Stores/Mongo/Topics.antt =====
-- The topics of the store in MongoDB.
use argo_messaging.Base.{
  Text, text_eq, nat_eq, Error, ◌==◌, Bool, true, ◌&&◌, not, none, List, [], is_empty, contains,
  if◌then◌else◌,
}
use argo_messaging.Base.Int.{ℤ, pos}
use argo_messaging.Stores.Models.{Time, zero_time, Rate, QTopic, QDailyTopicMsgCount}
use argo_messaging.Stores.Interface.{Page}
use argo_messaging.Stores.Mongo.{Driver, Mongo, ◌>>=◌, pure, query, on_topics, on_daily, inserted}
use argo_messaging.Stores.Mongo.Pages.{query_page}

-- `bson.M{"project_uuid": projectUUID, "name": name}`
unfoldable pub topic_selector : Text → Text → QTopic → Bool
topic_selector project_uuid name t = t.project_uuid == project_uuid && t.name == name

abbrev sees : Text → QTopic → Bool
sees user_uuid t = if is_empty user_uuid then true else contains user_uuid t.acl

-- The selector of `QueryDailyTopicMsgCount`: without a time, all days of a topic; without anything,
-- everything.
unfoldable pub daily_selector : Text → Text → Time → QDailyTopicMsgCount → Bool
daily_selector project_uuid topic_name date c =
    let no_date = date == zero_time in
    if is_empty project_uuid && is_empty topic_name && no_date
    then true
    else if not (is_empty project_uuid) && not (is_empty topic_name) && no_date
    then c.project_uuid == project_uuid && c.topic_name == topic_name
    else c.date == date && c.project_uuid == project_uuid && c.topic_name == topic_name

module _ {C : Type 0 → Type 0} (driver : Driver C) where
  abbrev change_topic : Text → Text → (QTopic → QTopic) → Mongo C Error
  change_topic project_uuid name change =
      on_topics (driver.update (topic_selector project_uuid name) change)

  -- `QueryTopics`
  unfoldable pub query_topics : Text → Text → Text → Text → ℤ → Mongo C (Page QTopic)
  query_topics project_uuid user_uuid name page_token page_size =
      query_page driver (λ (t : QTopic). t.id) (λ db. db.topics)
        (λ t. t.project_uuid == project_uuid && sees user_uuid t) (λ t. t.name) name page_token
        page_size

  -- `QueryTopicsByACL`
  unfoldable pub query_topics_by_acl : Text → Text → Mongo C (List QTopic × Error)
  query_topics_by_acl project_uuid user = do
    results ←
        query (λ db. driver.all (λ t. t.project_uuid == project_uuid && sees user t) db.topics)
    pure (results, none)

  -- `InsertTopic`; the driver gives the `_id`.
  unfoldable pub insert_topic : Text → Text → Text → Time → Mongo C Error
  insert_topic project_uuid name schema_uuid created_on = inserted (
      on_topics (
        driver.insert (record {
          id = 0;
          project_uuid = project_uuid;
          name = name;
          msg_num = pos 0;
          total_bytes = pos 0;
          latest_publish = zero_time;
          publish_rate = record { count = pos 0; nanoseconds = 0 };
          schema_uuid = schema_uuid;
          created_on = created_on;
          acl = [];
        })))

  -- `RemoveTopic`
  unfoldable pub remove_topic : Text → Text → Mongo C Error
  remove_topic project_uuid name = on_topics (driver.remove (topic_selector project_uuid name))

  -- `RemoveProjectTopics`
  unfoldable pub remove_project_topics : Text → Mongo C Error
  remove_project_topics project_uuid =
      on_topics (driver.remove_all (λ t. t.project_uuid == project_uuid))

  -- `UpdateTopicLatestPublish`
  unfoldable pub update_topic_latest_publish : Text → Text → Time → Mongo C Error
  update_topic_latest_publish project_uuid name date =
      change_topic project_uuid name (λ t. record t { latest_publish = date })

  -- `UpdateTopicPublishRate`
  unfoldable pub update_topic_publish_rate : Text → Text → Rate → Mongo C Error
  update_topic_publish_rate project_uuid name rate =
      change_topic project_uuid name (λ t. record t { publish_rate = rate })

  -- `IncrementTopicMsgNum`
  unfoldable pub increment_topic_msg_num : Text → Text → ℤ → Mongo C Error
  increment_topic_msg_num project_uuid name num = on_topics (
      driver.increment (topic_selector project_uuid name) (λ t. t.msg_num)
        (λ n t. record t { msg_num = n }) num)

  -- `IncrementTopicBytes`
  unfoldable pub increment_topic_bytes : Text → Text → ℤ → Mongo C Error
  increment_topic_bytes project_uuid name total_bytes = on_topics (
      driver.increment (topic_selector project_uuid name) (λ t. t.total_bytes)
        (λ n t. record t { total_bytes = n }) total_bytes)

  -- `QueryDailyTopicMsgCount`
  unfoldable pub query_daily_topic_msg_count :
      Text → Text → Time → Mongo C (List QDailyTopicMsgCount × Error)
  query_daily_topic_msg_count project_uuid topic_name date = do
    results ← query (λ db.
        driver.page (λ c. c.date) (daily_selector project_uuid topic_name date) (pos 30)
          db.daily_topic_msg_count)
    pure (results, none)

  -- `IncrementDailyTopicMsgCount`
  unfoldable pub increment_daily_topic_msg_count : Text → Text → ℤ → Time → Mongo C Error
  increment_daily_topic_msg_count project_uuid topic_name num date = on_daily (
      driver.upsert_increment
        (λ c. c.date == date && c.project_uuid == project_uuid && c.topic_name == topic_name)
        (λ c. c.number_of_messages) (λ n c. record c { number_of_messages = n }) num
        (record {
          date = date;
          project_uuid = project_uuid;
          topic_name = topic_name;
          number_of_messages = num;
        }))
