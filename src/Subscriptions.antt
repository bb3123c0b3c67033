-- ===== src/Subscriptions.antt =====
-- subscriptions/subscription.go: the subscriptions, over any store.
pub mod AckId
pub mod Operations
pub mod Verification
use argo_messaging.Base.{
  Text, text, split, Result, ok, err, ◌==◌, text_eq, Bool, true, false, ◌&&◌, ◌||◌, not, List, [],
  ◌∷◌, ◌++◌, contains, is_empty, if◌then◌else◌,
}
use argo_messaging.Base.Int.{ℤ, pos, int_eq}
use argo_messaging.Stores.Models.{Time, Rate, QSub}
use argo_messaging.Stores.Times.{Zulu}

abbrev pub linear : Text
linear = text "linear"

abbrev pub slow_start : Text
slow_start = text "slowstart"

abbrev pub autogen : Text
autogen = text "autogen"

abbrev pub disabled : Text
disabled = text "disabled"

-- `IsRetryPolicySupported`
unfoldable pub is_retry_policy_supported : Text → Bool
is_retry_policy_supported policy = contains policy (linear ∷ slow_start ∷ [])

-- `IsAuthorizationHeaderTypeSupported`
unfoldable pub is_authorization_header_type_supported : Text → Bool
is_authorization_header_type_supported type = contains type (autogen ∷ disabled ∷ [])

pub record RetryPolicy : Type 0 where
  pub policy_type : Text
  pub period : ℤ  -- int

pub record AuthorizationHeader : Type 0 where
  pub type : Text
  pub value : Text

pub record PushConfig : Type 0 where
  pub pend : Text
  pub max_messages : ℤ  -- int64
  pub authorization_header : AuthorizationHeader
  pub ret_pol : RetryPolicy
  pub verification_hash : Text
  pub verified : Bool

-- `PushConfig{}`
abbrev pub empty_push_config : PushConfig
empty_push_config = record {
  pend = [];
  max_messages = pos 0;
  authorization_header = record { type = []; value = [] };
  ret_pol = record { policy_type = []; period = pos 0 };
  verification_hash = [];
  verified = false;
}

-- `cfg == (PushConfig{})`
unfoldable pub is_empty_push_config : PushConfig → Bool
is_empty_push_config cfg =
    is_empty cfg.pend
    && cfg.max_messages == pos 0
    && is_empty cfg.authorization_header.type
    && is_empty cfg.authorization_header.value
    && is_empty cfg.ret_pol.policy_type
    && cfg.ret_pol.period == pos 0
    && is_empty cfg.verification_hash
    && not cfg.verified

pub record Subscription : Type 0 where
  pub project_uuid : Text
  pub name : Text
  pub topic : Text
  pub full_name : Text
  pub full_topic : Text
  pub push_cfg : PushConfig
  pub ack : ℤ  -- int
  pub offset : ℤ  -- int64
  pub next_offset : ℤ  -- int64
  pub created_on : Text
  pub latest_consume : Time
  pub consume_rate : Rate

pub record PaginatedSubscriptions : Type 0 where
  pub subscriptions : List Subscription
  pub next_page_token : Text
  pub total_size : ℤ  -- int32

-- The push configuration that `Find` makes of a stored subscription with an endpoint.
abbrev push_config_of : QSub → PushConfig
push_config_of q = record {
  pend = q.push_endpoint;
  max_messages = if q.max_messages == pos 0 then pos 1 else q.max_messages;
  authorization_header = record { type = q.authorization_type; value = q.authorization_header };
  ret_pol = record {
    policy_type = q.ret_policy;
    period = if q.ret_policy == slow_start then pos 0 else q.ret_period;
  };
  verification_hash = q.verification_hash;
  verified = q.verified;
}

-- `New`, and what `Find` adds to it.
unfoldable pub new_subscription : Zulu → Text → QSub → Subscription
new_subscription z project_name q = record {
  project_uuid = q.project_uuid;
  name = q.name;
  topic = q.topic;
  full_name = text "/projects/" ++ (project_name ++ (text "/subscriptions/" ++ q.name));
  full_topic = text "/projects/" ++ (project_name ++ (text "/topics/" ++ q.topic));
  push_cfg = if is_empty q.push_endpoint then empty_push_config else push_config_of q;
  ack = q.ack;
  offset = q.offset;
  next_offset = q.next_offset;
  created_on = z.format q.created_on;
  latest_consume = q.latest_consume;
  consume_rate = q.consume_rate;
}

abbrev pub wrong_topic_name : Text
wrong_topic_name = text "wrong topic name declaration"

topic_of_items : List Text → Result (Text × Text)
topic_of_items (t0 ∷ t1 ∷ t2 ∷ t3 ∷ []) =
    if not (t0 == text "projects") && not (t2 == text "topics")
    then err wrong_topic_name
    else ok (t1, t3)
topic_of_items _ = err wrong_topic_name

-- `ExtractFullTopicRef`
unfoldable pub extract_full_topic_ref : Text → Result (Text × Text)
unfolding topic_of_items
extract_full_topic_ref reference = topic_of_items (split b'/' reference)
