-- ===== src/Stores/Mock/Topics.antt =====
-- The topics of the store in memory.
pub mod Pages
use argo_messaging.Base.{
  Text, text, Error, ◌==◌, text_eq, nat_eq, Bool, true, false, ◌&&◌, not, Option, none, some, List,
  [], ◌∷◌, ◌++◌, length, filter, is_empty, modify_first, remove_first, find_first, any, option_list,
  if◌then◌else◌, ltb,
}
use argo_messaging.Base.Int.{ℤ, pos, add64, int_eq}
use argo_messaging.Stores.Models.{Time, Rate, zero_time, QTopic, QDailyTopicMsgCount}
use argo_messaging.Stores.Interface.{Page}
use argo_messaging.Stores.Mock.State.{Mock, not_found}
use argo_messaging.Stores.Mock.Acl.{in_acl, topics, users_of}
use argo_messaging.Stores.Mock.Paging.{
  sort_desc, collect, page_limit, read_token, bad_token, from_token, finish_page, error_page,
}

-- `item.ProjectUUID == projectUUID && item.Name == name`
unfoldable pub is_topic : Text → Text → QTopic → Bool
is_topic project_uuid name t = t.project_uuid == project_uuid && t.name == name

-- The outcome of a loop that looks for one topic: the new list, or an error and no change.
abbrev pub set_topics : Option (List QTopic) → Text → Mock → Mock × Error
set_topics (some ts) message mk = (record mk { topic_list = ts }, none)
set_topics none message mk = (mk, some message)

-- `InsertTopic`
unfoldable pub insert_topic : Text → Text → Text → Time → Mock → Mock × Error
insert_topic project_uuid name schema_uuid created_on mk =
    let topic : QTopic = record {
      id = length mk.topic_list;
      project_uuid = project_uuid;
      name = name;
      msg_num = pos 0;
      total_bytes = pos 0;
      latest_publish = zero_time;
      publish_rate = record { count = pos 0; nanoseconds = 0 };
      schema_uuid = schema_uuid;
      created_on = created_on;
      acl = [];
    } in
    (record mk { topic_list = mk.topic_list ++ (topic ∷ []) }, none)

-- `RemoveTopic`
unfoldable pub remove_topic : Text → Text → Mock → Mock × Error
unfolding is_topic
remove_topic project_uuid name mk =
    set_topics (remove_first (is_topic project_uuid name) mk.topic_list) not_found mk

-- `RemoveProjectTopics`
unfoldable pub remove_project_topics : Text → Mock → Mock × Error
remove_project_topics project_uuid mk = (
  record mk { topic_list = filter (λ t. not (t.project_uuid == project_uuid)) mk.topic_list },
  if any (λ t. t.project_uuid == project_uuid) mk.topic_list then none else some not_found,
)

abbrev change_topic : Text → Text → (QTopic → QTopic) → Text → Mock → Mock × Error
change_topic project_uuid name change message mk =
    set_topics (modify_first (is_topic project_uuid name) change mk.topic_list) message mk

-- `IncrementTopicMsgNum`
unfoldable pub increment_topic_msg_num : Text → Text → ℤ → Mock → Mock × Error
increment_topic_msg_num project_uuid name num mk =
    change_topic project_uuid name (λ t. record t { msg_num = add64 t.msg_num num }) not_found mk

-- `IncrementTopicBytes`
unfoldable pub increment_topic_bytes : Text → Text → ℤ → Mock → Mock × Error
increment_topic_bytes project_uuid name total_bytes mk =
    change_topic project_uuid name (λ t. record t { total_bytes = add64 t.total_bytes total_bytes })
      not_found mk

abbrev pub topic_not_found : Text
topic_not_found = text "topic not found"

-- `UpdateTopicLatestPublish`
unfoldable pub update_topic_latest_publish : Text → Text → Time → Mock → Mock × Error
update_topic_latest_publish project_uuid name date mk =
    change_topic project_uuid name (λ t. record t { latest_publish = date }) topic_not_found mk

-- `UpdateTopicPublishRate`
unfoldable pub update_topic_publish_rate : Text → Text → Rate → Mock → Mock × Error
update_topic_publish_rate project_uuid name rate mk =
    change_topic project_uuid name (λ t. record t { publish_rate = rate }) topic_not_found mk

unfoldable pub is_daily : Text → Text → Time → QDailyTopicMsgCount → Bool
is_daily project_uuid topic_name date c =
    c.project_uuid == project_uuid && c.topic_name == topic_name && c.date == date

abbrev pub or_append :
    Option (List QDailyTopicMsgCount)
    → QDailyTopicMsgCount
    → List QDailyTopicMsgCount
    → List QDailyTopicMsgCount
or_append (some counts) fresh old = counts
or_append none fresh old = old ++ (fresh ∷ [])

-- `IncrementDailyTopicMsgCount`
unfoldable pub increment_daily_topic_msg_count : Text → Text → ℤ → Time → Mock → Mock × Error
unfolding is_daily
increment_daily_topic_msg_count project_uuid topic_name num date mk =
    let fresh : QDailyTopicMsgCount = record {
      date = date;
      project_uuid = project_uuid;
      topic_name = topic_name;
      number_of_messages = num;
    } in
    let changed =
      modify_first (is_daily project_uuid topic_name date)
        (λ c. record c { number_of_messages = add64 c.number_of_messages num })
        mk.daily_topic_msg_count in
    (record mk { daily_topic_msg_count = or_append changed fresh mk.daily_topic_msg_count }, none)

-- The topics of the project that the user may see; every user may, if none is named.
unfoldable pub may_see_topic : Text → Text → Mock → QTopic → Bool
may_see_topic project_uuid user_uuid mk t =
    t.project_uuid == project_uuid
    && (if is_empty user_uuid then true else in_acl topics t.name user_uuid mk)

-- The branch of `QueryTopics` for one name.
named_topics : Text → Text → Text → Mock → Page QTopic
named_topics project_uuid user_uuid name mk = record {
  items =
      option_list (
        find_first (λ t. may_see_topic project_uuid user_uuid mk t && t.name == name)
          mk.topic_list);
  total_size = pos 0;
  next_page_token = [];
  error = none;
}

-- The branch for a page, once the token is read; the list stays sorted.
topics_page : Text → Text → Text → ℤ → Option ℤ → Mock → Mock × Page QTopic
topics_page project_uuid user_uuid page_token page_size none mk = (mk, error_page bad_token)
topics_page project_uuid user_uuid page_token page_size (some pg) mk =
    let sorted = sort_desc (λ (t : QTopic). t.id) mk.topic_list in
    let counter = length (filter (may_see_topic project_uuid user_uuid mk) mk.topic_list) in
    let items =
      collect
        (λ t.
          from_token (λ (u : QTopic). u.id) page_token pg t
          && may_see_topic project_uuid user_uuid mk t)
        (page_limit page_size counter) sorted in
    (
      record mk { topic_list = sorted },
      finish_page (λ (t : QTopic). t.id) page_size (pos counter) items,
    )

-- `QueryTopics`
unfoldable pub query_topics : Text → Text → Text → Text → ℤ → Mock → Mock × Page QTopic
unfolding named_topics topics_page
query_topics project_uuid user_uuid name page_token page_size mk =
    if is_empty name
    then topics_page project_uuid user_uuid page_token page_size (read_token page_token) mk
    else (mk, named_topics project_uuid user_uuid name mk)

-- One copy of the topic for each time that the user stands in its access list.
copies : Text → QTopic → List Text → List QTopic → List QTopic
copies user t [] rest = rest
copies user t (u ∷ us) rest =
    let more = copies user t us rest in if u == user then t ∷ more else more

topics_by_acl : Text → Text → Mock → List QTopic → List QTopic
unfolding copies
topics_by_acl project_uuid user mk [] = []
topics_by_acl project_uuid user mk (t ∷ ts) =
    let rest = topics_by_acl project_uuid user mk ts in
    if project_uuid == t.project_uuid
    then copies user t (users_of (mk.topics_acl t.name)) rest
    else rest

-- `QueryTopicsByACL`
unfoldable pub query_topics_by_acl : Text → Text → Mock → List QTopic × Error
unfolding topics_by_acl
query_topics_by_acl project_uuid user mk = (topics_by_acl project_uuid user mk mk.topic_list, none)
