-- ===== src/Subscriptions/Verification.antt =====
-- `VerifyPushEndpoint` of subscriptions/subscription.go. The URL and HTTP libraries are a parameter.
use argo_messaging.Base.{
  ℕ, Text, text, Error, ◌==◌, nat_eq, text_eq, true, not, none, some, is_empty, if◌then◌else◌, ◌⊎◌,
  inl, inr,
}
use argo_messaging.Stores.Times.{Zulu}
use argo_messaging.Stores.Interface.{Store, PushFields}
use argo_messaging.Subscriptions.{Subscription, PushConfig}
use argo_messaging.Subscriptions.Operations.{mod_sub_push}

-- The URL of the verification hash at the host of an endpoint, with the request for it; and the status
-- and the body of the response; on the left an error.
pub record Http : Type 0 where
  pub hash_url : Text → Text ⊎ Text
  pub get : Text → Text ⊎ (ℕ × Text)

-- The fields of a push configuration, as the operations on the store take them.
abbrev pub fields_of : PushConfig → PushFields
fields_of cfg = record {
  push_endpoint = cfg.pend;
  max_messages = cfg.max_messages;
  authorization_type = cfg.authorization_header.type;
  authorization_header = cfg.authorization_header.value;
  ret_policy = cfg.ret_pol.policy_type;
  ret_period = cfg.ret_pol.period;
  verification_hash = cfg.verification_hash;
  verified = cfg.verified;
}

-- The test of the response.
unfoldable pub response_error : PushConfig → Text ⊎ (ℕ × Text) → Error
response_error cfg (inr (status, body)) =
    if not (status == 200)
    then some (text "Wrong response status code")
    else if cfg.verification_hash == body
    then none
    else some (text "Wrong verification hash")
response_error cfg (inl e) = some e

abbrev fetched : Http → Text ⊎ Text → Text ⊎ (ℕ × Text)
fetched http (inr url) = http.get url
fetched http (inl e) = inl e

-- What keeps an endpoint from being verified, before the store is asked.
unfoldable pub ownership_error : Http → PushConfig → Error
ownership_error http cfg =
    if is_empty cfg.pend
    then some (text "Could not retrieve push endpoint host")
    else response_error cfg (fetched http (http.hash_url cfg.pend))

module _ {S : Type 0} (z : Zulu) (store : Store S) where
  -- `VerifyPushEndpoint`
  unfoldable pub verify_push_endpoint : Http → Subscription → S → S × Error
  verify_push_endpoint http sub s = elim (ownership_error http sub.push_cfg) [
    | some e ↦ (s, some e)
    | none ↦
        mod_sub_push z store sub.project_uuid sub.name
          (record (fields_of sub.push_cfg) { verified = true }) s
  ]
