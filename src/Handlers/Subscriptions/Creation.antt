-- ===== src/Handlers/Subscriptions/Creation.antt =====
-- `SubCreate` of handlers/subscriptions.go.
use argo_messaging.Base.{
  Text, text, ◌==◌, text_eq, Bool, true, false, not, Option, some, [], is_empty, if◌then◌else◌,
}
use argo_messaging.Base.Int.{ℤ, pos, leb_ℤ, int_eq}
use argo_messaging.Stores.Models.{Time}
use argo_messaging.Stores.Times.{Zulu}
use argo_messaging.Stores.Interface.{Store, PushFields}
use argo_messaging.Projects.{get_uuid_by_name}
use argo_messaging.Schemas.{Lang}
use argo_messaging.Topics.{has_topic}
use argo_messaging.Subscriptions.{
  Subscription, PushConfig, RetryPolicy, is_empty_push_config, extract_full_topic_ref,
  is_retry_policy_supported, is_authorization_header_type_supported, linear, autogen,
}
use argo_messaging.Subscriptions.Operations.{create_sub}
use argo_messaging.Auth.Users.{get_push_worker}
use argo_messaging.Handlers.{
  Body, ApiError, invalid_argument, invalid_data, invalid_name, not_found, conflict, push_conflict,
  internal_push, generic_internal,
}
use argo_messaging.Handlers.Offsets.{broker_topic}
use argo_messaging.Handlers.Steps.{
  export, M, ◌>>=◌, ◌>>◌, pure, refuse_if, refuse_error, value_or, result_or, read_body, on_store,
  read_store,
}
use argo_messaging.Handlers.Subscriptions.{subscription}

-- What the configuration and the libraries give to a handler of push subscriptions: whether pushing is
-- enabled, the token of the push worker, `IsValidHTTPS`, and what the calls of `GenToken` return.
pub record PushContext : Type 0 where
  pub push_enabled : Bool
  pub worker_token : Text
  pub is_valid_https : Text → Bool
  pub header_token : Option Text
  pub hash_token : Option Text

abbrev pub unsupported_policy : ApiError
unsupported_policy = invalid_data (text "Retry policy can only be of 'linear' or 'slowstart' type")

abbrev pub unsupported_header : ApiError
unsupported_header =
    invalid_data (text "Authorization header type can only be of 'autogen' or 'disabled' type")

abbrev pub bad_endpoint : ApiError
bad_endpoint = invalid_data (text "Push endpoint should be addressed by a valid https url")

abbrev pub no_header : ApiError
no_header = generic_internal (text "Could not generate authorization header")

abbrev pub no_hash : ApiError
no_hash = generic_internal (text "Could not generate verification hash")

-- The defaults of a retry policy.
abbrev pub policy_or_linear : RetryPolicy → Text
policy_or_linear r = if is_empty r.policy_type then linear else r.policy_type

abbrev pub period_or_default : RetryPolicy → ℤ
period_or_default r = if leb_ℤ r.period (pos 0) then pos 3000 else r.period

-- The fields of a subscription from which messages are pulled.
abbrev pull_fields : PushFields
pull_fields = record {
  push_endpoint = [];
  max_messages = pos 1;
  authorization_type = [];
  authorization_header = [];
  ret_policy = [];
  ret_period = pos 0;
  verification_hash = [];
  verified = false;
}

-- The value of a new authorization header: a generated token, or none under the other type.
abbrev header_value : Option Text → Text → Option Text
header_value token type = if type == autogen then token else some []

abbrev creation_error : Text → ApiError
creation_error e = if e == text "exists" then conflict subscription else generic_internal e

module _ {S P : Type 0} (z : Zulu) (store : Store S) (c : PushContext) where
  -- The part of the handler that reads the push configuration.
  unfoldable pub new_push_fields : PushConfig → Bool → M (S × P) Text PushFields
  new_push_fields cfg true = pure pull_fields
  new_push_fields cfg false = do
    refuse_if (not c.push_enabled) push_conflict
    found ← read_store (get_push_worker z store c.worker_token)
    worker ← result_or (λ _. internal_push) found
    refuse_if (not (c.is_valid_https cfg.pend)) bad_endpoint
    let given = cfg.authorization_header.type
    let type = if is_empty given then autogen else given
    refuse_if (not (is_authorization_header_type_supported type)) unsupported_header
    value ← value_or no_header (header_value c.header_token type)
    let policy = policy_or_linear cfg.ret_pol
    refuse_if (not (is_retry_policy_supported policy)) unsupported_policy
    hash ← value_or no_hash c.hash_token
    pure (record {
      push_endpoint = cfg.pend;
      max_messages = if cfg.max_messages == pos 0 then pos 1 else cfg.max_messages;
      authorization_type = type;
      authorization_header = value;
      ret_policy = policy;
      ret_period = period_or_default cfg.ret_pol;
      verification_hash = hash;
      verified = false;
    })

  module _ {Raw : Type 0} (lang : Lang Raw) (project_uuid url_sub : Text) where
    -- `SubCreate`; `max_offset` is the broker's, and `now` the time of the creation.
    unfoldable pub sub_create :
        (Text → ℤ)
        → (Subscription → Option Text)
        → Time
        → Body Subscription
        → M (S × P) Text (Unit {0})
    sub_create max_offset to_json now body = do
      given ← read_body (invalid_argument subscription) body
      (t_project, t_name) ←
          result_or (λ _. invalid_name (text "Topic")) (extract_full_topic_ref given.full_topic)
      exists ← on_store (has_topic z lang store project_uuid t_name)
      refuse_if (not exists) (not_found (text "Topic"))
      t_project_uuid ← read_store (get_uuid_by_name store t_project)
      let offset = max_offset (broker_topic t_project_uuid t_name)
      fields ← new_push_fields given.push_cfg (is_empty_push_config given.push_cfg)
      (res, e) ←
          on_store (create_sub z store project_uuid url_sub t_name offset given.ack fields now)
      refuse_error creation_error e
      export (to_json res)
