-- ===== src/Stores/Interface.antt =====
-- The interface of stores/store.go: the methods that the modelled packages call. A method that
-- changes the store returns the new store first; reading methods that sort the store's list in place
-- return it too.
use argo_messaging.Base.{Text, Error, Result, Bool, List, Option}
use argo_messaging.Base.Int.{ℤ}
use argo_messaging.Stores.Models.{
  Time, Rate, QSub, QAcl, QProject, QUser, QTopic, QSchema, QProjectRoles, QUserRegistration,
}

-- What a paginated query returns.
pub record Page (A : Type 0) : Type 0 where
  pub items : List A
  pub total_size : ℤ  -- int32
  pub next_page_token : Text
  pub error : Error

-- The arguments of `InsertSub`, and the part of them that `ModSubPush` changes.
pub record PushFields : Type 0 where
  pub push_endpoint : Text
  pub max_messages : ℤ
  pub authorization_type : Text
  pub authorization_header : Text
  pub ret_policy : Text
  pub ret_period : ℤ
  pub verification_hash : Text
  pub verified : Bool

-- What `UpdateUser` is given: nil slices and empty texts leave a field as it is.
pub record UserFields : Type 0 where
  pub first_name : Text
  pub last_name : Text
  pub organization : Text
  pub description : Text
  pub projects : Option (List QProjectRoles)
  pub name : Text
  pub email : Text
  pub service_roles : Option (List Text)

pub record Store (S : Type 0) : Type 0 where
  -- projectUUID, userUUID, name, pageToken, pageSize
  pub query_subs : Text → Text → Text → Text → ℤ → S → S × Page QSub
  pub query_topics : Text → Text → Text → Text → ℤ → S → S × Page QTopic
  pub query_subs_by_topic : Text → Text → S → List QSub × Error
  pub query_topics_by_acl : Text → Text → S → List QTopic × Error
  pub query_subs_by_acl : Text → Text → S → List QSub × Error
  -- uuid, name
  pub query_projects : Text → Text → S → List QProject × Error
  -- projectUUID, uuid, name
  pub query_users : Text → Text → Text → S → List QUser × Error
  pub get_user_from_token : Text → S → Result QUser
  pub get_user_roles : Text → Text → S → List Text × Text
  pub has_resource_roles : Text → List Text → S → Bool
  pub has_users : Text → List Text → S → Bool × List Text
  pub get_all_roles : S → List Text
  pub insert_topic : Text → Text → Text → Time → S → S × Error
  pub remove_topic : Text → Text → S → S × Error
  -- projectUUID, name, topic, offset, ack, push fields, createdOn
  pub insert_sub : Text → Text → Text → ℤ → ℤ → PushFields → Time → S → S × Error
  pub remove_sub : Text → Text → S → S × Error
  pub mod_ack : Text → Text → ℤ → S → S × Error
  pub mod_sub_push : Text → Text → PushFields → S → S × Error
  pub update_sub_pull : Text → Text → ℤ → Text → S → S × Error
  pub update_sub_offset_ack : Text → Text → ℤ → Text → S → S × Error
  pub update_sub_offset : Text → Text → ℤ → S → S
  -- uuid, name, createdOn, modifiedOn, createdBy, description
  pub insert_project : Text → Text → Time → Time → Text → Text → S → S × Error
  -- uuid, name, description, modifiedOn
  pub update_project : Text → Text → Text → Time → S → S × Error
  pub remove_project : Text → S → S × Error
  pub remove_project_topics : Text → S → S × Error
  pub remove_project_subs : Text → S → S × Error
  -- resource, as in `"topics"`, projectUUID first
  pub exists_in_acl : Text → Text → Text → Text → S → Error
  pub query_acl : Text → Text → Text → S → Result QAcl
  pub mod_acl : Text → Text → Text → List Text → S → S × Error
  pub append_to_acl : Text → Text → Text → List Text → S → S × Error
  -- may panic
  pub remove_from_acl : Text → Text → Text → List Text → S → Result (S × Error)
  pub increment_topic_msg_num : Text → Text → ℤ → S → S × Error
  pub increment_topic_bytes : Text → Text → ℤ → S → S × Error
  pub increment_daily_topic_msg_count : Text → Text → ℤ → Time → S → S × Error
  pub increment_sub_msg_num : Text → Text → ℤ → S → S × Error
  pub increment_sub_bytes : Text → Text → ℤ → S → S × Error
  pub update_topic_latest_publish : Text → Text → Time → S → S × Error
  pub update_topic_publish_rate : Text → Text → Rate → S → S × Error
  pub update_sub_latest_consume : Text → Text → Time → S → S × Error
  pub update_sub_consume_rate : Text → Text → Rate → S → S × Error
  -- projectUUID, schemaUUID, name
  pub query_schemas : Text → Text → Text → S → List QSchema × Error
  -- projectUUID, schemaUUID, name, type, raw schema
  pub insert_schema : Text → Text → Text → Text → Text → S → S × Error
  pub update_schema : Text → Text → Text → Text → S → S × Error
  pub delete_schema : Text → S → S × Error
  pub insert_user : QUser → S → S × Error
  -- uuid, fields, modifiedOn
  pub update_user : Text → UserFields → Time → S → S × Error
  pub register_user : QUserRegistration → S → S × Error
  -- regUUID, status, activationToken, name, email, org
  pub query_registrations :
      Text → Text → Text → Text → Text → Text → S → List QUserRegistration × Error
  -- regUUID, status, modifiedBy, modifiedAt
  pub update_registration : Text → Text → Text → Text → S → S × Error
  -- userUUID, projectUUID, roles
  pub append_to_user_projects : Text → Text → List Text → S → S × Error
  pub update_user_token : Text → Text → S → S × Error
  pub remove_user : Text → S → S × Error
