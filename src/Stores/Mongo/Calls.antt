-- ===== src/Stores/Mongo/Calls.antt =====
-- Calls of the interface of stores/store.go, by the store in memory and by the one in MongoDB.
use argo_messaging.Base.{Text, text_eq, Error, ◌&&◌, false, is_empty, find_first, ◌≡◌}
use argo_messaging.Base.Int.{ℤ}
use argo_messaging.Stores.Models.{Time, QSub, QTopic, QUser, QUserRegistration}
use argo_messaging.Stores.Interface.{PushFields}
use argo_messaging.Stores.Mock.State.{Mock}
use argo_messaging.Stores.Mock.Subs
use argo_messaging.Stores.Mock.Topics
use argo_messaging.Stores.Mock.Users
use argo_messaging.Stores.Mock.Projects
use argo_messaging.Stores.Mock.Schemas
use argo_messaging.Stores.Mock.Registrations
use argo_messaging.Stores.Mongo.{Driver, Db, Mongo, Ran, returned, exited}
use argo_messaging.Stores.Mongo.Subs as MongoSubs
use argo_messaging.Stores.Mongo.Topics as MongoTopics
use argo_messaging.Stores.Mongo.Users as MongoUsers
use argo_messaging.Stores.Mongo.Projects as MongoProjects
use argo_messaging.Stores.Mongo.Schemas as MongoSchemas
use argo_messaging.Stores.Mongo.Registrations as MongoRegistrations
use argo_messaging.Stores.Mongo.Laws.{Documented, Fits}

-- A call of the interface of stores/store.go.
pub data Call : Type 0 where
  mod_ack : Text → Text → ℤ → Call
  mod_sub_push : Text → Text → PushFields → Call
  update_sub_pull : Text → Text → ℤ → Text → Call
  increment_sub_msg_num : Text → Text → ℤ → Call
  increment_sub_bytes : Text → Text → ℤ → Call
  remove_sub : Text → Text → Call
  increment_topic_msg_num : Text → Text → ℤ → Call
  increment_topic_bytes : Text → Text → ℤ → Call
  remove_topic : Text → Text → Call
  insert_user : QUser → Call
  update_user_token : Text → Text → Call
  remove_user : Text → Call
  insert_project : Text → Text → Time → Time → Text → Text → Call
  remove_project : Text → Call
  insert_schema : Text → Text → Text → Text → Text → Call
  update_schema : Text → Text → Text → Text → Call
  register_user : QUserRegistration → Call

abbrev pub in_memory : Call → Mock → Mock × Error
in_memory (mod_ack p n ack) = Subs.mod_ack p n ack
in_memory (mod_sub_push p n f) = Subs.mod_sub_push p n f
in_memory (update_sub_pull p n off ts) = Subs.update_sub_pull p n off ts
in_memory (increment_sub_msg_num p n num) = Subs.increment_sub_msg_num p n num
in_memory (increment_sub_bytes p n num) = Subs.increment_sub_bytes p n num
in_memory (remove_sub p n) = Subs.remove_sub p n
in_memory (increment_topic_msg_num p n num) = Topics.increment_topic_msg_num p n num
in_memory (increment_topic_bytes p n num) = Topics.increment_topic_bytes p n num
in_memory (remove_topic p n) = Topics.remove_topic p n
in_memory (insert_user u) = Users.insert_user u
in_memory (update_user_token uuid token) = Users.update_user_token uuid token
in_memory (remove_user uuid) = Users.remove_user uuid
in_memory (insert_project uuid n c m by d) = Projects.insert_project uuid n c m by d
in_memory (remove_project uuid) = Projects.remove_project uuid
in_memory (insert_schema p uuid n type raw) = Schemas.insert_schema p uuid n type raw
in_memory (update_schema uuid n type raw) = Schemas.update_schema uuid n type raw
in_memory (register_user r) = Registrations.register_user r

-- What the stores take alike: an increment that keeps the counter of the first subscription or topic of
-- that name in its 64 bits, and an update of a schema that is given something.
abbrev pub IsUsual : Call → Mock → Type 0
IsUsual (increment_sub_msg_num p n num) mk =
    Fits (λ (s : QSub). s.msg_num) num (find_first (Subs.is_sub p n) mk.sub_list)
IsUsual (increment_sub_bytes p n num) mk =
    Fits (λ (s : QSub). s.total_bytes) num (find_first (Subs.is_sub p n) mk.sub_list)
IsUsual (increment_topic_msg_num p n num) mk =
    Fits (λ (t : QTopic). t.msg_num) num (find_first (Topics.is_topic p n) mk.topic_list)
IsUsual (increment_topic_bytes p n num) mk =
    Fits (λ (t : QTopic). t.total_bytes) num (find_first (Topics.is_topic p n) mk.topic_list)
IsUsual (update_schema uuid n type raw) mk = (is_empty n && is_empty type && is_empty raw) ≡ false
IsUsual _ mk = Unit

module _ {C : Type 0 → Type 0} (driver : Driver C) where
  abbrev pub in_mongo : Call → Mongo C Error
  in_mongo (mod_ack p n ack) = MongoSubs.mod_ack driver p n ack
  in_mongo (mod_sub_push p n f) = MongoSubs.mod_sub_push driver p n f
  in_mongo (update_sub_pull p n off ts) = MongoSubs.update_sub_pull driver p n off ts
  in_mongo (increment_sub_msg_num p n num) = MongoSubs.increment_sub_msg_num driver p n num
  in_mongo (increment_sub_bytes p n num) = MongoSubs.increment_sub_bytes driver p n num
  in_mongo (remove_sub p n) = MongoSubs.remove_sub driver p n
  in_mongo (increment_topic_msg_num p n num) = MongoTopics.increment_topic_msg_num driver p n num
  in_mongo (increment_topic_bytes p n num) = MongoTopics.increment_topic_bytes driver p n num
  in_mongo (remove_topic p n) = MongoTopics.remove_topic driver p n
  in_mongo (insert_user u) = MongoUsers.insert_user driver u
  in_mongo (update_user_token uuid token) = MongoUsers.update_user_token driver uuid token
  in_mongo (remove_user uuid) = MongoUsers.remove_user driver uuid
  in_mongo (insert_project uuid n c m by d) = MongoProjects.insert_project driver uuid n c m by d
  in_mongo (remove_project uuid) = MongoProjects.remove_project driver uuid
  in_mongo (insert_schema p uuid n type raw) = MongoSchemas.insert_schema driver p uuid n type raw
  in_mongo (update_schema uuid n type raw) = MongoSchemas.update_schema driver uuid n type raw
  in_mongo (register_user r) = MongoRegistrations.register_user driver r

  module _ (laws : Documented driver) where
    -- The collections hold what the store in memory holds.
    pub record Represents (db : Db C) (mk : Mock) : Type 0 where
      pub subscriptions : laws.contents db.subscriptions ≡ mk.sub_list
      pub topics : laws.contents db.topics ≡ mk.topic_list
      pub users : laws.contents db.users ≡ mk.user_list
      pub projects : laws.contents db.projects ≡ mk.project_list
      pub schemas : laws.contents db.schemas ≡ mk.schema_list
      pub registrations : laws.contents db.user_registrations ≡ mk.user_registrations

    -- The process goes on, with the same error, and again holds what the store in memory holds.
    abbrev pub Simulates : Ran (Db C) Error → Mock × Error → Type 0
    Simulates exited (mk, e) = ⊥
    Simulates (returned db e') (mk, e) = (e' ≡ e) × Represents db mk
