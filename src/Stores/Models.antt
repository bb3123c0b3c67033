-- ===== src/Stores/Models.antt =====
-- stores/query_models.go. A time is the number of nanoseconds since the zero `time.Time`; an `_id` of
-- the store in memory is a number; a rate, a float64 in the source, is the quotient it is computed
-- from, not rounded.
use argo_messaging.Base.{
  ℕ, Text, ◌==◌, text_eq, Bool, false, List, [], ◌∷◌, ◌++◌, if◌then◌else◌, ◌||◌,
}
use argo_messaging.Base.Int.{ℤ}

abbrev pub Time : Type 0
Time = ℕ

-- `time.Time{}`, the time of which `IsZero` holds.
abbrev pub zero_time : Time
zero_time = 0

-- `float64(count) / seconds`, the seconds given in nanoseconds.
pub record Rate : Type 0 where
  pub count : ℤ
  pub nanoseconds : ℕ

pub record QSub : Type 0 where
  pub id : ℕ
  pub project_uuid : Text
  pub name : Text
  pub topic : Text
  pub offset : ℤ  -- int64
  pub next_offset : ℤ  -- int64
  pub pending_ack : Text
  pub push_endpoint : Text
  pub max_messages : ℤ  -- int64
  pub authorization_type : Text
  pub authorization_header : Text
  pub ack : ℤ  -- int
  pub ret_policy : Text
  pub ret_period : ℤ  -- int
  pub msg_num : ℤ  -- int64
  pub total_bytes : ℤ  -- int64
  pub verification_hash : Text
  pub verified : Bool
  pub latest_consume : Time
  pub consume_rate : Rate
  pub created_on : Time
  pub acl : List Text

pub record QAcl : Type 0 where
  pub acl : List Text

pub record QProject : Type 0 where
  pub uuid : Text
  pub name : Text
  pub created_on : Time
  pub modified_on : Time
  pub created_by : Text
  pub description : Text

pub record QUserRegistration : Type 0 where
  pub uuid : Text
  pub name : Text
  pub first_name : Text
  pub last_name : Text
  pub organization : Text
  pub description : Text
  pub email : Text
  pub activation_token : Text
  pub status : Text
  pub registered_at : Text
  pub modified_by : Text
  pub modified_at : Text

pub record QProjectRoles : Type 0 where
  pub project_uuid : Text
  pub roles : List Text

-- Without `_id`, which only the paginated query of users reads.
pub record QUser : Type 0 where
  pub uuid : Text
  pub projects : List QProjectRoles
  pub name : Text
  pub first_name : Text
  pub last_name : Text
  pub organization : Text
  pub description : Text
  pub token : Text
  pub email : Text
  pub service_roles : List Text
  pub created_on : Time
  pub modified_on : Time
  pub created_by : Text

pub record QRole : Type 0 where
  pub name : Text
  pub roles : List Text

pub record QTopic : Type 0 where
  pub id : ℕ
  pub project_uuid : Text
  pub name : Text
  pub msg_num : ℤ  -- int64
  pub total_bytes : ℤ  -- int64
  pub latest_publish : Time
  pub publish_rate : Rate
  pub schema_uuid : Text
  pub created_on : Time
  pub acl : List Text

pub record QDailyTopicMsgCount : Type 0 where
  pub date : Time
  pub project_uuid : Text
  pub topic_name : Text
  pub number_of_messages : ℤ  -- int64

pub record QSchema : Type 0 where
  pub project_uuid : Text
  pub uuid : Text
  pub name : Text
  pub type : Text
  pub raw_schema : Text

-- `isInProject`
unfoldable pub is_in_project : Text → List QProjectRoles → Bool
is_in_project project_uuid [] = false
is_in_project project_uuid (p ∷ ps) =
    p.project_uuid == project_uuid || is_in_project project_uuid ps

-- The loop of `getProjectRoles`: the last entry of the project wins.
roles_loop : Text → List Text → List QProjectRoles → List Text
roles_loop project_uuid result [] = result
roles_loop project_uuid result (p ∷ ps) =
    roles_loop project_uuid (if p.project_uuid == project_uuid then p.roles else result) ps

-- `getProjectRoles`; appending no service role changes nothing.
unfoldable pub get_project_roles : QUser → Text → List Text
unfolding roles_loop
get_project_roles user project_uuid = roles_loop project_uuid [] user.projects ++ user.service_roles
