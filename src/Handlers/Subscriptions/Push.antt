-- ===== src/Handlers/Subscriptions/Push.antt =====
-- `SubModPush` and `SubVerifyPushEndpoint` of handlers/subscriptions.go. The state is the store and the
-- push server.
pub mod Ownership
pub mod Kept
pub mod Sync
pub mod Restoring
pub mod Changes
pub mod Requests
pub mod Histories
use argo_messaging.Base.{
  Text, text, Error, ◌==◌, text_eq, Bool, true, false, ◌&&◌, ◌||◌, not, Option, none, some, List,
  [], ◌∷◌, is_empty, if◌then◌else◌, Result, ok, err, panic,
}
use argo_messaging.Base.Int.{ℤ, pos, int_eq}
use argo_messaging.Stores.Times.{Zulu}
use argo_messaging.Stores.Interface.{Store, PushFields}
use argo_messaging.Push.Client.{PushServer, Status, Activation, to_uint32}
use argo_messaging.Subscriptions.{
  Subscription, PushConfig, AuthorizationHeader, empty_push_config, is_empty_push_config,
  is_retry_policy_supported, is_authorization_header_type_supported, autogen, disabled,
}
use argo_messaging.Subscriptions.Operations.{mod_sub_push}
use argo_messaging.Subscriptions.Verification.{Http, verify_push_endpoint}
use argo_messaging.Auth.{remove_from_acl, append_to_acl, append_to_user_projects}
use argo_messaging.Auth.Users.{User, empty_user, get_push_worker}
use argo_messaging.Handlers.{
  Body, ApiError, done, invalid_argument, invalid_data, push_conflict, internal_push,
  push_verification, generic_conflict, generic_internal, panicked,
}
use argo_messaging.Handlers.Steps.{
  M, ◌>>=◌, ◌>>◌, pure, answer, refuse_if, refuse_error, value_or, result_or, read_body, on_store,
  read_store, on_second,
}
use argo_messaging.Handlers.Subscriptions.{subscription, missing_or_internal, found_sub}
use argo_messaging.Handlers.Subscriptions.Creation.{
  PushContext, unsupported_policy, unsupported_header, bad_endpoint, no_header, no_hash,
  policy_or_linear, period_or_default,
}

abbrev header_of : Text → Text → AuthorizationHeader
header_of type value = record { type = type; value = value }

-- The three steps for a type that was not given: what the existing header says of it.
abbrev kept_header : AuthorizationHeader → Text → Text → AuthorizationHeader
kept_header existing type value =
    let type2 = if is_empty type && is_empty existing.type then disabled else type in
    let type3 = if is_empty type2 && existing.type == disabled then disabled else type2 in
    if is_empty type3 && existing.type == autogen then existing else header_of type3 value

-- The authorization header that is stored: `type` is the one of the request, and `token` what
-- `GenToken` returns; `none` where it fails.
unfoldable pub new_header : PushConfig → Text → Option Text → Option AuthorizationHeader
new_header existing type token =
    let type1 = if is_empty type && is_empty_push_config existing then autogen else type in
    if type1 == autogen
    then elim token [
      | some value ↦ some (kept_header existing.authorization_header type1 value)
      | none ↦ none
    ]
    else some (kept_header existing.authorization_header type1 [])

-- `maxMessages`
unfoldable pub new_max_messages : PushConfig → ℤ → ℤ
new_max_messages existing max =
    if max == pos 0
    then (if existing.max_messages == pos 0 then pos 1 else existing.max_messages)
    else max

-- The hash of an endpoint and whether it is verified: an endpoint that changes is to be verified again.
unfoldable pub ownership : PushConfig → PushConfig → Option Text → Option (Text × Bool)
ownership existing cfg token =
    if cfg.pend == existing.pend
    then some (existing.verification_hash, existing.verified)
    else elim token [ some hash ↦ some (hash, false) | none ↦ none ]

-- The fields of a subscription that is turned to pulling.
abbrev stopped_fields : PushConfig → PushFields
stopped_fields existing = record {
  push_endpoint = [];
  max_messages = new_max_messages existing (pos 0);
  authorization_type = autogen;
  authorization_header = [];
  ret_policy = [];
  ret_period = pos 0;
  verification_hash = [];
  verified = false;
}

abbrev pub activation_of : Subscription → PushFields → Activation
activation_of sub f = record {
  full_sub = sub.full_name;
  full_topic = sub.full_topic;
  push_endpoint = f.push_endpoint;
  retry_type = f.ret_policy;
  retry_period = to_uint32 f.ret_period;
  max_messages = f.max_messages;
  authz_header = f.authorization_header;
}

module _ {S P : Type 0} (z : Zulu) (store : Store S) (server : PushServer P) (c : PushContext)
    (project_uuid url_sub : Text) where
  -- The part of `SubModPush` before it changes anything: the fields to store, and the push worker.
  unfoldable pub planned : PushConfig → PushConfig → Bool → M (S × P) Text (PushFields × User)
  planned existing cfg true = pure (stopped_fields existing, empty_user)
  planned existing cfg false = do
    refuse_if (not c.push_enabled) push_conflict
    found ← read_store (get_push_worker z store c.worker_token)
    worker ← result_or (λ _. internal_push) found
    refuse_if (not (c.is_valid_https cfg.pend)) bad_endpoint
    let policy = policy_or_linear cfg.ret_pol
    refuse_if (not (is_retry_policy_supported policy)) unsupported_policy
    let type = cfg.authorization_header.type
    refuse_if (not (is_empty type) && not (is_authorization_header_type_supported type))
        unsupported_header
    header ← value_or no_header (new_header existing type c.header_token)
    (hash, verified) ← value_or no_hash (ownership existing cfg c.hash_token)
    pure (
      record {
        push_endpoint = cfg.pend;
        max_messages = new_max_messages existing cfg.max_messages;
        authorization_type = header.type;
        authorization_header = header.value;
        ret_policy = policy;
        ret_period = period_or_default cfg.ret_pol;
        verification_hash = hash;
        verified = verified;
      },
      worker,
    )

  abbrev worker_or_none : Result User → M (S × P) Text User
  worker_or_none (ok u) = pure u
  worker_or_none (err e) = pure empty_user
  worker_or_none panic = answer panicked

  -- The push worker, also where the request stops the pushing.
  abbrev pub worker_of : Bool → User → M (S × P) Text User
  worker_of false worker = pure worker
  worker_of true worker = do
    found ← read_store (get_push_worker z store c.worker_token)
    worker_or_none found

  abbrev removal_error : Result (S × Error) → M (S × P) Text (Unit {0})
  removal_error (ok (s', e)) = do on_store (λ s. (s', tt)); refuse_error generic_internal e
  removal_error (err e) = refuse_error generic_internal (some e)
  removal_error panic = answer panicked

  -- A subscription whose endpoint was verified is stopped first.
  abbrev pub deactivated : Bool → Subscription → User → M (S × P) Text (Unit {0})
  deactivated false sub worker = pure tt
  deactivated true sub worker = do
    st ← on_second (server.deactivate_subscription sub.full_name)
    r ←
        read_store
          (remove_from_acl store project_uuid (text "subscriptions") sub.name (worker.name ∷ []))
    removal_error r

  -- The push server takes the subscription, and the push worker may consume from it.
  abbrev pub activated : Bool → Subscription → PushFields → User → M (S × P) Text (Unit {0})
  activated false sub f worker = pure tt
  activated true sub f worker = do
    st ← on_second (server.activate_subscription (activation_of sub f))
    e ←
        on_store
          (append_to_acl store project_uuid (text "subscriptions") sub.name (worker.name ∷ []))
    refuse_error generic_internal e
    e' ← on_store (append_to_user_projects store worker.uuid project_uuid [])
    refuse_error generic_internal e'

  -- What `SubModPush` does once the new fields are stored.
  unfoldable pub after_storing :
      Subscription → PushConfig → PushFields → User → M (S × P) Text (Unit {0})
  after_storing existing cfg f planned_worker = do
    let was_push = not (is_empty_push_config existing.push_cfg)
    let is_push = not (is_empty_push_config cfg)
    worker ← worker_of (was_push && not is_push) planned_worker
    deactivated (was_push && existing.push_cfg.verified) existing worker
    activated (is_push && (cfg.pend == existing.push_cfg.pend && existing.push_cfg.verified))
        existing f worker
    answer (done [])

  -- `SubModPush`
  unfoldable pub sub_mod_push : Body Subscription → M (S × P) Text (Unit {0})
  sub_mod_push body = do
    given ← read_body (invalid_argument subscription) body
    existing ← found_sub z store project_uuid url_sub
    (f, worker) ← planned existing.push_cfg given.push_cfg (is_empty_push_config given.push_cfg)
    e ← on_store (mod_sub_push z store project_uuid url_sub f)
    refuse_error missing_or_internal e
    after_storing existing given.push_cfg f worker

  -- The fields with which a verified endpoint is activated.
  abbrev verified_fields : PushConfig → PushFields
  verified_fields cfg = record {
    push_endpoint = cfg.pend;
    max_messages = cfg.max_messages;
    authorization_type = cfg.authorization_header.type;
    authorization_header = cfg.authorization_header.value;
    ret_policy = cfg.ret_pol.policy_type;
    ret_period = cfg.ret_pol.period;
    verification_hash = cfg.verification_hash;
    verified = true;
  }

  -- `SubVerifyPushEndpoint`
  unfoldable pub sub_verify_push_endpoint : Http → M (S × P) Text (Unit {0})
  sub_verify_push_endpoint http = do
    refuse_if (not c.push_enabled) push_conflict
    found ← read_store (get_push_worker z store c.worker_token)
    worker ← result_or (λ _. internal_push) found
    sub ← found_sub z store project_uuid url_sub
    refuse_if (is_empty_push_config sub.push_cfg)
        (generic_conflict (text "Subscription is not in push mode"))
    refuse_if sub.push_cfg.verified (generic_conflict (text "Push endpoint is already verified"))
    e ← on_store (verify_push_endpoint z store http sub)
    refuse_error push_verification e
    activated true sub (verified_fields sub.push_cfg) worker
    answer (done [])
