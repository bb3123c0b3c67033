-- ===== src/Stores/Mock/Instance.antt =====
-- The store in memory as a `Store`. The timestamps of an acknowledgement need the layout of times.
use argo_messaging.Stores.Times.{Zulu}
use argo_messaging.Stores.Interface.{Store}
use argo_messaging.Stores.Mock.State.{Mock}
use argo_messaging.Stores.Mock.Topics
use argo_messaging.Stores.Mock.Subs
use argo_messaging.Stores.Mock.Subs.Query
use argo_messaging.Stores.Mock.Projects
use argo_messaging.Stores.Mock.Users
use argo_messaging.Stores.Mock.Acl
use argo_messaging.Stores.Mock.Registrations
use argo_messaging.Stores.Mock.Schemas

unfoldable pub mock : Zulu → Store Mock
mock z = record {
  query_subs = Query.query_subs;
  query_topics = Topics.query_topics;
  query_subs_by_topic = Query.query_subs_by_topic;
  query_topics_by_acl = Topics.query_topics_by_acl;
  query_subs_by_acl = Query.query_subs_by_acl;
  query_projects = Projects.query_projects;
  query_users = Users.query_users;
  get_user_from_token = Users.get_user_from_token;
  get_user_roles = Users.get_user_roles;
  has_resource_roles = Users.has_resource_roles;
  has_users = Users.has_users;
  get_all_roles = Users.get_all_roles;
  insert_topic = Topics.insert_topic;
  remove_topic = Topics.remove_topic;
  insert_sub = Subs.insert_sub;
  remove_sub = Subs.remove_sub;
  mod_ack = Subs.mod_ack;
  mod_sub_push = Subs.mod_sub_push;
  update_sub_pull = Subs.update_sub_pull;
  update_sub_offset_ack = Subs.update_sub_offset_ack z;
  update_sub_offset = Subs.update_sub_offset;
  insert_project = Projects.insert_project;
  update_project = Projects.update_project;
  remove_project = Projects.remove_project;
  remove_project_topics = Topics.remove_project_topics;
  remove_project_subs = Subs.remove_project_subs;
  exists_in_acl = Acl.exists_in_acl;
  query_acl = Acl.query_acl;
  mod_acl = Acl.mod_acl;
  append_to_acl = Acl.append_to_acl;
  remove_from_acl = Acl.remove_from_acl;
  increment_topic_msg_num = Topics.increment_topic_msg_num;
  increment_topic_bytes = Topics.increment_topic_bytes;
  increment_daily_topic_msg_count = Topics.increment_daily_topic_msg_count;
  increment_sub_msg_num = Subs.increment_sub_msg_num;
  increment_sub_bytes = Subs.increment_sub_bytes;
  update_topic_latest_publish = Topics.update_topic_latest_publish;
  update_topic_publish_rate = Topics.update_topic_publish_rate;
  update_sub_latest_consume = Subs.update_sub_latest_consume;
  update_sub_consume_rate = Subs.update_sub_consume_rate;
  query_schemas = Schemas.query_schemas;
  insert_schema = Schemas.insert_schema;
  update_schema = Schemas.update_schema;
  delete_schema = Schemas.delete_schema;
  insert_user = Users.insert_user;
  update_user = Users.update_user;
  register_user = Registrations.register_user;
  query_registrations = Registrations.query_registrations;
  update_registration = Registrations.update_registration;
  append_to_user_projects = Users.append_to_user_projects;
  update_user_token = Users.update_user_token;
  remove_user = Users.remove_user;
}
