-- ===== src/Handlers/Ack.antt =====
-- `SubAck` of handlers/subscriptions.go.
pub mod Maximum
use argo_messaging.Base.{
  Text, text, Error, Result, ok, err, panic, ◌==◌, text_eq, Bool, not, any, Option, none, some,
  List, [], ◌∷◌, if◌then◌else◌,
}
use argo_messaging.Base.Int.{ℤ, pos, add64}
use argo_messaging.Validation.{valid_ack_id}
use argo_messaging.Stores.Models.{Time}
use argo_messaging.Stores.Times.{Zulu}
use argo_messaging.Stores.Interface.{Store}
use argo_messaging.Subscriptions.{Subscription, PaginatedSubscriptions}
use argo_messaging.Subscriptions.Operations.{find}
use argo_messaging.Subscriptions.AckId.{get_max_ack_id, get_offset_from_ack_id}
use argo_messaging.Handlers.{
  Outcome, panicked, done, fail, Body, unreadable, malformed, parsed, ApiError,
  invalid_request_body, invalid_data, not_found, timeout, generic_internal,
  handling_acknowledgement,
}

-- What the request names: the project by uuid and name, and the subscription.
pub record Target : Type 0 where
  pub project_uuid : Text
  pub project : Text
  pub subscription : Text

abbrev pub invalid_ack_id : Outcome Text
invalid_ack_id = fail (invalid_data (text "Invalid ack id"))

-- The last response, after the store has answered.
abbrev pub acknowledged : {S : Type 0} → S × Error → S × Outcome Text
acknowledged (s, none) = (s, done (text "{}"))
acknowledged (s, some e) =
    (s, fail (if e == text "ack timeout" then timeout e else generic_internal e))

module _ {S : Type 0} (z : Zulu) (store : Store S) (now : Time) (t : Target) where
  abbrev pub at_offset : Result ℤ → S → S × Outcome Text
  at_offset panic s = (s, panicked)
  at_offset (err e) s = (s, invalid_ack_id)
  at_offset (ok off) s = acknowledged (
      store.update_sub_offset_ack t.project_uuid t.subscription (add64 off (pos 1)) (z.format now)
        s)

  abbrev pub at_max : Result Text → S → S × Outcome Text
  at_max panic s = (s, panicked)
  at_max (err e) s = (s, fail handling_acknowledgement)
  at_max (ok ack_id) s = at_offset (get_offset_from_ack_id ack_id) s

  -- With the list of ids, which is nil where the body has none.
  abbrev pub with_ids : Option (List Text) → S → S × Outcome Text
  with_ids none s = (s, invalid_ack_id)
  with_ids (some ids) s =
      if any (λ a. not (valid_ack_id t.project t.subscription a)) ids
      then (s, invalid_ack_id)
      else at_max (get_max_ack_id ids) s

  abbrev pub after_find : List Subscription → Error → Option (List Text) → S → S × Outcome Text
  after_find subs (some e) ids s = (s, fail handling_acknowledgement)
  after_find [] none ids s = (s, fail (not_found (text "Subscription")))
  after_find (sub ∷ subs) none ids s = with_ids ids s

  -- `SubAck`
  unfoldable pub sub_ack : Body (Option (List Text)) → S → S × Outcome Text
  sub_ack unreadable s = (s, fail invalid_request_body)
  sub_ack malformed s = (s, fail (invalid_data (text "Invalid ack parameter")))
  sub_ack (parsed ids) s =
      let (s', cur_sub) = find z store t.project_uuid [] t.subscription [] (pos 0) s in
      after_find cur_sub.0.subscriptions cur_sub.1 ids s'
