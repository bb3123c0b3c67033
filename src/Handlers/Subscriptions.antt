-- ===== src/Handlers/Subscriptions.antt =====
-- The handlers of handlers/subscriptions.go that read, delete and list subscriptions and change their
-- access list or deadline, as sequences of steps. The state is the store and the push server.
pub mod Push
pub mod Creation
use argo_messaging.Base.{
  Text, text, Error, is_nil, ◌==◌, text_eq, Bool, true, false, ◌&&◌, not, Option, none, some, List,
  [], ◌∷◌, is_empty, if◌then◌else◌, Result, ok, err, panic,
}
use argo_messaging.Base.Int.{ℤ, pos, ltb_ℤ, wrap32}
use argo_messaging.Base.Decimal.{parse_int}
use argo_messaging.Stores.Models.{Time}
use argo_messaging.Stores.Times.{Zulu}
use argo_messaging.Stores.Interface.{Store}
use argo_messaging.Push.Client.{PushServer, Status, result}
use argo_messaging.Subscriptions.{Subscription, PaginatedSubscriptions, is_empty_push_config}
use argo_messaging.Subscriptions.Operations.{find, remove_sub}
use argo_messaging.Subscriptions.Operations
use argo_messaging.Auth.{are_valid_users, get_acl, is_project_admin, is_service_admin, is_consumer}
use argo_messaging.Auth
use argo_messaging.Handlers.{
  Outcome, done, fail, Body, ApiError, invalid_argument, invalid_data, not_found, generic_conflict,
  generic_internal, generic_backend,
}
use argo_messaging.Handlers.Offsets.{broker_topic}
use argo_messaging.Handlers.Steps.{
  M, ◌>>=◌, ◌>>◌, run, answer, export, pure, refuse_if, refuse_error, value_or, result_or,
  read_body, on_store, read_store, on_second,
}

abbrev pub subscription : Text
subscription = text "Subscription"

-- "not found", or any other error of a call on one subscription.
abbrev pub missing_or_internal : Text → ApiError
missing_or_internal e = if e == text "not found" then not_found subscription else generic_internal e

abbrev first_sub : {W : Type 0} → List Subscription → M W Text Subscription
first_sub [] = answer (fail (not_found subscription))
first_sub (sub ∷ subs) = pure sub

abbrev has_verified_endpoint : Subscription → Bool
has_verified_endpoint sub = not (is_empty_push_config sub.push_cfg) && sub.push_cfg.verified

abbrev no_users : Text → ApiError
no_users message = record { code = 404; message = message; status = text "NOT_FOUND" }

abbrev bad_deadline : ApiError
bad_deadline = invalid_argument (text "ackDeadlineSeconds(needs value between 0 and 600)")

abbrev deadline_error : Text → ApiError
deadline_error e = if e == text "wrong value" then bad_deadline else missing_or_internal e

-- The page size of a URL, an `int`; an empty one is 0.
abbrev pub page_size_of : Text → Option ℤ
page_size_of size = if is_empty size then some (pos 0) else parse_int size

-- Whose subscriptions are listed: a consumer's own, unless an administrator asks.
abbrev pub listing_user : List Text → Text → Text
listing_user roles user_uuid =
    if not (is_project_admin roles) && not (is_service_admin roles) && is_consumer roles
    then user_uuid
    else []

module _ {S P : Type 0} (z : Zulu) (store : Store S) (project_uuid url_sub : Text) where
  -- The subscription of the URL.
  abbrev pub found_sub : M (S × P) Text Subscription
  found_sub = do
    (res, e) ← on_store (find z store project_uuid [] url_sub [] (pos 0))
    refuse_error (λ _. generic_backend) e
    first_sub res.subscriptions

  -- The status at the push server, where the endpoint is verified; else the empty text.
  abbrev push_status : PushServer P → Bool → Subscription → M (S × P) Text Text
  push_status server false sub = pure []
  push_status server true sub = do
    st ← on_second (server.subscription_status sub.full_name)
    pure (result false st)

  -- `SubListOne`; `to_json` is given the subscription and its status.
  unfoldable pub sub_list_one :
      PushServer P → (Subscription → Text → Option Text) → M (S × P) Text (Unit {0})
  sub_list_one server to_json = do
    sub ← found_sub
    status ← push_status server (has_verified_endpoint sub) sub
    export (to_json sub status)

  -- What `SubDelete` writes, after it has told the push server.
  abbrev after_delete :
      PushServer P → (Text → Text) → Bool → Subscription → M (S × P) Text (Unit {0})
  after_delete server to_json false sub = answer (done [])
  after_delete server to_json true sub = do
    st ← on_second (server.deactivate_subscription sub.full_name)
    answer (done (to_json (result false st)))

  -- `SubDelete`
  unfoldable pub sub_delete : PushServer P → (Text → Text) → M (S × P) Text (Unit {0})
  sub_delete server to_json = do
    sub ← found_sub
    e ← on_store (remove_sub z store project_uuid url_sub)
    refuse_error missing_or_internal e
    after_delete server to_json (has_verified_endpoint sub) sub

  -- `SubModACL`
  unfoldable pub sub_mod_acl : Body (List Text) → M (S × P) Text (Unit {0})
  sub_mod_acl body = do
    users ← read_body (invalid_argument (text "Subscription ACL")) body
    (valid, e) ← read_store (are_valid_users store project_uuid users)
    refuse_error no_users e
    e' ← on_store (Auth.mod_acl store project_uuid (text "subscriptions") url_sub users)
    refuse_error missing_or_internal e'
    answer (done [])

  -- `SubModAck`
  unfoldable pub sub_mod_ack : Body ℤ → M (S × P) Text (Unit {0})
  sub_mod_ack body = do
    deadline ← read_body bad_deadline body
    e ← on_store (Operations.mod_ack z store project_uuid url_sub deadline)
    refuse_error deadline_error e
    answer (done [])

  -- `SubACL`
  unfoldable pub sub_acl : (List Text → Option Text) → M (S × P) Text (Unit {0})
  sub_acl to_json = do
    res ← read_store (get_acl store project_uuid (text "subscriptions") url_sub)
    acl ← result_or (λ _. not_found subscription) res
    export (to_json acl)

  -- `SubTimeToOffset`; `parse` reads a time, `time_to_offset` is the broker's, and an offset that does
  -- not exist is negative.
  unfoldable pub sub_time_to_offset :
      (Text → Option Time)
      → (Text → Time → Result ℤ)
      → (ℤ → Option Text)
      → Text
      → M (S × P) Text (Unit {0})
  sub_time_to_offset parse time_to_offset to_json given = do
    sub ← found_sub
    t ← value_or (invalid_data (text "Time is not in valid Zulu format.")) (parse given)
    off ← result_or (λ _. generic_backend) (time_to_offset (broker_topic project_uuid sub.topic) t)
    refuse_if (ltb_ℤ off (pos 0)) (
        generic_conflict (text "Timestamp is out of bounds for the subscription's topic/partition"))
    export (to_json off)

  -- `SubListAll`
  unfoldable pub sub_list_all :
      List Text
      → Text
      → (PaginatedSubscriptions → Option Text)
      → Text
      → Text
      → M (S × P) Text (Unit {0})
  sub_list_all roles user_uuid to_json page_token page_size = do
    size ← value_or (invalid_data (text "Invalid page size")) (page_size_of page_size)
    (res, e) ←
        on_store
          (find z store project_uuid (listing_user roles user_uuid) [] page_token (wrap32 size))
    refuse_error (λ _. invalid_data (text "Invalid page token")) e
    export (to_json res)
