-- ===== src/Stores/Mock/State.antt =====
-- The fields of `MockStore` that its methods read and write, without the session and the metrics
-- of the hosts. A Go map of access lists is a function.
use argo_messaging.Base.{Text, ◌==◌, text_eq, Option, some, List, if◌then◌else◌, text}
use argo_messaging.Stores.Models.{
  QSub, QAcl, QProject, QUser, QUserRegistration, QTopic, QRole, QSchema, QDailyTopicMsgCount,
}

pub record Mock : Type 0 where
  pub user_registrations : List QUserRegistration
  pub sub_list : List QSub
  pub topic_list : List QTopic
  pub daily_topic_msg_count : List QDailyTopicMsgCount
  pub project_list : List QProject
  pub user_list : List QUser
  pub role_list : List QRole
  pub schema_list : List QSchema
  pub topics_acl : Text → Option QAcl
  pub subs_acl : Text → Option QAcl

-- `m[key] = value`
abbrev pub map_insert : {V : Type 0} → Text → V → (Text → Option V) → Text → Option V
map_insert key value m j = if key == j then some value else m j

abbrev pub not_found : Text
not_found = text "not found"
