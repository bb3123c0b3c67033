-- ===== src/Examples/Pushing.antt =====
-- Examples on the requests that change how messages are pushed. The push server keeps a function from
-- full names.
use argo_messaging.Base.{
  Text, text, text_eq, text_beq, text_beq_refl, ◌==◌, true, Option, none, some, [], ◌∷◌, is_empty,
  if◌then◌else◌, ◌≡◌, refl, inr, find_first, remove_first, contains,
}
use argo_messaging.Base.Base64
use argo_messaging.Base.Int.{pos, int_eq}
use argo_messaging.Stores.Models.{QSub}
use argo_messaging.Stores.Interface.{PushFields}
use argo_messaging.Stores.Mock.State.{Mock}
use argo_messaging.Stores.Mock.Instance.{mock}
use argo_messaging.Stores.Mock.Projects
use argo_messaging.Stores.Mock.Subs
use argo_messaging.Stores.Mock.Subs.Query
use argo_messaging.Base.Decimal.{format_int}
use argo_messaging.Stores.Mock.Users
use argo_messaging.Projects.{get_name_by_uuid, user_name_of}
use argo_messaging.Push.Client.{PushServer, Activation, Status, succeeded, result}
use argo_messaging.Subscriptions.{
  PushConfig, new_subscription, is_retry_policy_supported, is_authorization_header_type_supported,
  is_empty_push_config,
}
use argo_messaging.Subscriptions.Operations
use argo_messaging.Auth.Users.{
  User, empty_user, get_push_worker, get_user_by_token, full_user, new_user,
}
use argo_messaging.Handlers.{done}
use argo_messaging.Handlers.Steps.{next}
use argo_messaging.Handlers.Subscriptions.{sub_delete}
use argo_messaging.Handlers.Subscriptions.Creation.{PushContext}
use argo_messaging.Handlers.Subscriptions.Push.{planned, new_header, ownership, new_max_messages}
use argo_messaging.Handlers.Subscriptions.Push.Ownership.{IsSound, planned_lem}
use argo_messaging.Handlers.Subscriptions.Push.Sync.{Reliable, IsInSync}
use argo_messaging.Handlers.Subscriptions.Push.Histories.{
  delete, handle, start, further, Reaches-IsInSync,
}
use argo_messaging.Examples.{zulu, sub, store}

abbrev Table : Type 0
Table = Text → Option Activation

abbrev put : Text → Option Activation → Table → Table
put key value t j = if key == j then value else t j

abbrev fine : Status
fine = record { code = succeeded; error_message = []; message = text "done" }

abbrev server : PushServer Table
server = record {
  subscription_status = λ sub t. (t, fine);
  activate_subscription = λ a t. (put a.full_sub (some a) t, fine);
  deactivate_subscription = λ sub t. (put sub none t, fine);
}

put-put : (key : Text) (value : Option Activation) (t : Table) → put key value t key ≡ value
put-put key value t = rw (text_beq_refl key) refl

abbrev reliable : Reliable server (λ t. t)
reliable = record {
  activates = λ a t. put-put a.full_sub (some a) t;
  deactivates = λ sub t. put-put sub none t;
}

-- A subscription with a verified endpoint, and what the push server has of it.
abbrev pushed_sub : QSub
pushed_sub = record sub {
  push_endpoint = text "https://example.org/in";
  authorization_type = text "autogen";
  authorization_header = text "H";
  ret_policy = text "linear";
  ret_period = pos 3000;
  verification_hash = text "V";
  verified = true;
}

abbrev pub pushing : Mock
pushing = record store { sub_list = pushed_sub ∷ [] }

abbrev activation : Activation
activation = record {
  full_sub = text "/projects/ARGO/subscriptions/s";
  full_topic = text "/projects/ARGO/topics/t";
  push_endpoint = text "https://example.org/in";
  retry_type = text "linear";
  retry_period = 3000;
  max_messages = pos 1;
  authz_header = text "H";
}

abbrev active : Table
active = put (text "/projects/ARGO/subscriptions/s") (some activation) (λ j. none)

in_sync : IsInSync zulu server (λ t. t) (text "P") (text "s") (pushing, active)
unfolding get_name_by_uuid mock Projects.query_projects find_first text_beq is_empty Subs.is_sub
in_sync = (refl, inr (pushed_sub, refl, refl))

answered :
    (handle zulu server (text "P") (text "s") (delete (λ t. t)) (pushing, active)).1
    ≡ done (text "done")
unfolding sub_delete Operations.find Operations.find_decoded Operations.found mock Query.query_subs
    Query.named_subs Query.may_see_sub find_first text_beq is_empty get_name_by_uuid
    Projects.query_projects Base64.decode new_subscription is_empty_push_config
    Operations.remove_sub Operations.has_sub Subs.remove_sub remove_first Subs.is_sub result
answered = refl

Reaches-IsInSync_example :
    IsInSync zulu server
      (λ t. t)
      (text "P")
      (text "s")
      (handle zulu server (text "P") (text "s") (delete (λ t. t)) (pushing, active)).0
unfolding is_empty
Reaches-IsInSync_example =
    Reaches-IsInSync zulu server (λ t. t) reliable (text "P") (text "s") refl (pushing, active)
      (handle zulu server (text "P") (text "s") (delete (λ t. t)) (pushing, active)).0 in_sync
      (further (pushing, active) start (delete (λ t. t)) (text "done") answered)

abbrev context : PushContext
context = record {
  push_enabled = true;
  worker_token = text "S3CR3T";
  is_valid_https = λ url. true;
  header_token = some (text "G");
  hash_token = some (text "W");
}

abbrev config : PushConfig
config = (new_subscription zulu (text "ARGO") pushed_sub).push_cfg

-- A request that keeps the endpoint of the subscription.
abbrev kept_fields : PushFields
kept_fields = record {
  push_endpoint = text "https://example.org/in";
  max_messages = pos 1;
  authorization_type = text "autogen";
  authorization_header = text "G";
  ret_policy = text "linear";
  ret_period = pos 3000;
  verification_hash = text "V";
  verified = true;
}

abbrev worker : User
worker = record empty_user {
  uuid = text "U";
  name = text "UserA";
  token = text "S3CR3T";
  created_on = text "0";
  modified_on = text "0";
}

plans :
    planned zulu
      (mock zulu)
      server
      context
      (text "P")
      (text "s")
      config
      config
      (is_empty_push_config config)
      (pushing, active)
    ≡ next (pushing, active) (kept_fields, worker)
unfolding planned is_empty_push_config is_empty new_subscription text_beq mock get_push_worker
    get_user_by_token Users.get_user_from_token find_first new_header ownership new_max_messages
    is_retry_policy_supported is_authorization_header_type_supported format_int contains full_user
    new_user user_name_of
plans = refl

planned_lem_example :
    IsSound zulu
      (mock zulu)
      server
      context
      (text "P")
      (text "s")
      config
      config
      (pushing, active)
      (kept_fields, worker)
      (pushing, active)
planned_lem_example =
    planned_lem zulu (mock zulu) server context (text "P") (text "s") config config
      (pushing, active) (pushing, active) kept_fields worker plans
