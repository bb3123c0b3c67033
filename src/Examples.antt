-- ===== src/Examples.antt =====
-- Examples of the theorems: a store with two projects, a topic and a subscription.
pub mod Broker
pub mod Subscribers
pub mod Others
pub mod TopicRequests
pub mod Accounts
pub mod Members
pub mod Pushing
pub mod Pushers
pub mod Documents
use argo_messaging.Base.{
  ℕ, ◌*◌, ◌/◌, ◌^◌, ◌<◌, if◌then◌else◌, ◌==◌, Text, text, text_eq, Option, none, some, List, [],
  ◌∷◌, ◌≡◌, refl, false, true, arith, Bool, Error,
}
use argo_messaging.Base.Int.{ℤ, pos, pos_part}
use argo_messaging.Base.Decimal.{format_int, parse_int, parse_int-format_int}
use argo_messaging.Stores.Models.{Time, QSub, QTopic, QProject, QUser, QAcl}
use argo_messaging.Stores.Times.{Zulu, second, year_10000}
use argo_messaging.Stores.Interface.{Store}
use argo_messaging.Stores.Mock.State.{Mock}
use argo_messaging.Stores.Mock.Instance.{mock}

abbrev seconds_of : Option ℤ → Option Time
seconds_of none = none
seconds_of (some n) = some (pos_part n * second)

-- A layout of times: the number of seconds in decimal.
abbrev pub zulu : Zulu
zulu = record {
  format = λ t. format_int (pos (t / second));
  parse = λ s. seconds_of (parse_int s);
  parse-format =
      λ t early. rw (parse_int-format_int (pos (t / second)) (omega arith, omega arith)) refl;
}

abbrev pub project : QProject
project = record {
  uuid = text "P";
  name = text "ARGO";
  created_on = 0;
  modified_on = 0;
  created_by = [];
  description = [];
}

abbrev pub topic : QTopic
topic = record {
  id = 0;
  project_uuid = text "P";
  name = text "t";
  msg_num = pos 0;
  total_bytes = pos 0;
  latest_publish = 0;
  publish_rate = record { count = pos 0; nanoseconds = 0 };
  schema_uuid = [];
  created_on = 0;
  acl = [];
}

abbrev pub second_topic : QTopic
second_topic = record topic { id = 1; name = text "u" }

abbrev pub sub : QSub
sub = record {
  id = 0;
  project_uuid = text "P";
  name = text "s";
  topic = text "t";
  offset = pos 0;
  next_offset = pos 0;
  pending_ack = [];
  push_endpoint = [];
  max_messages = pos 1;
  authorization_type = [];
  authorization_header = [];
  ack = pos 10;
  ret_policy = [];
  ret_period = pos 0;
  msg_num = pos 0;
  total_bytes = pos 0;
  verification_hash = [];
  verified = false;
  latest_consume = 0;
  consume_rate = record { count = pos 0; nanoseconds = 0 };
  created_on = 0;
  acl = [];
}

abbrev pub user : QUser
user = record {
  uuid = text "U";
  projects = [];
  name = text "UserA";
  first_name = [];
  last_name = [];
  organization = [];
  description = [];
  token = text "S3CR3T";
  email = [];
  service_roles = [];
  created_on = 0;
  modified_on = 0;
  created_by = [];
}

abbrev acl_of_t : Text → Option QAcl
acl_of_t name = if name == text "t" then some (record { acl = text "V" ∷ [] }) else none

abbrev pub store : Mock
store = record {
  user_registrations = [];
  sub_list = sub ∷ [];
  topic_list = topic ∷ second_topic ∷ [];
  daily_topic_msg_count = [];
  project_list = project ∷ [];
  user_list = user ∷ [];
  role_list = [];
  schema_list = [];
  topics_acl = acl_of_t;
  subs_acl = λ name. none;
}
