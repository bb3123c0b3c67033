-- ===== src/Handlers/Publish.antt =====
-- `TopicPublish` of handlers/topics.go. Publishing to the broker changes its state. A publication is
-- taken to be no earlier than the last one.
pub mod Counters
pub mod Counting
use argo_messaging.Base.{
  ℕ, ◌-◌, ◌*◌, ◌/◌, Text, text, Error, is_nil, ◌==◌, text_eq, nat_eq, Bool, true, false, ◌&&◌, not,
  Option, none, some, List, [], ◌∷◌, ◌++◌, length, map, is_empty, if◌then◌else◌, Result, ok, err,
  panic,
}
use argo_messaging.Base.Int.{ℤ, pos}
use argo_messaging.Stores.Models.{Time, Rate}
use argo_messaging.Stores.Times.{Zulu, second}
use argo_messaging.Stores.Interface.{Store}
use argo_messaging.Brokers.{Broker, Published}
use argo_messaging.Messages.{Message, total_size}
use argo_messaging.Schemas
use argo_messaging.Schemas.{Lang, Schema, extract_schema, validate_messages}
use argo_messaging.Topics.{Topic, find}
use argo_messaging.Auth.{is_publisher, per_resource}
use argo_messaging.Handlers.{
  Outcome, panicked, done, fail, Body, unreadable, malformed, parsed, ApiError,
  invalid_request_body, invalid_argument, invalid_data, not_found, forbidden, too_large_message,
  generic_internal, generic_backend, export_json,
}
use argo_messaging.Handlers.Offsets.{broker_topic}

-- The context of a request, with the time of the publication.
pub record Publisher : Type 0 where
  pub project_uuid : Text
  pub url_topic : Text
  pub user_uuid : Text
  pub roles : List Text
  pub auth_resource : Bool
  pub publish_time : Time

-- `schemas.GenericError`
abbrev schema_error : ApiError
schema_error = generic_internal (text "Could not load schema for topic")

abbrev too_large : Text
too_large =
    text "kafka server: Message was too large, server rejected it to avoid allocation error."

abbrev pub wrong_topic : ApiError
wrong_topic = generic_internal (text "Broker reports wrong topic")

-- The errors of one publication: the broker's, or that it reports another topic.
abbrev pub refused : Text → Published → Option ApiError
refused full_topic p = elim p.error [
  | some e ↦ some (if e == too_large then too_large_message else generic_backend)
  | none ↦ (if p.topic == full_topic then none else some wrong_topic)
]

-- The loop over the messages: the ids so far, or the error that ended it.
unfoldable pub publish_all :
    {B : Type 0}
    → Broker B
    → Text
    → List Message
    → List Text
    → B
    → B × (List Text × Option ApiError)
publish_all brk full_topic [] ids b = (b, (ids, none))
publish_all brk full_topic (m ∷ ms) ids b =
    let (b', p) = brk.publish full_topic m b in
    elim (refused full_topic p) [
      | some e ↦ (b', (ids, some e))
      | none ↦ publish_all brk full_topic ms (ids ++ (p.msg_id ∷ [])) b'
    ]

abbrev pub day : ℕ
day = 86400 * second

abbrev pub rate_of : Time → Time → ℤ → Rate
rate_of publish_time latest count = record {
  count = count;
  nanoseconds = if latest == 0 then second else publish_time - latest;
}

module _ {Raw S B : Type 0} (z : Zulu) (lang : Lang Raw) (to_json : List Text → Option Text)
    (store : Store S) (brk : Broker B) (c : Publisher) where
  -- The counters of the topic, after all messages are published.
  unfoldable pub count_published : Topic → List Message → S → S
  count_published topic ms s =
      let msg_count = pos (length ms) in
      let s1 = (store.increment_topic_msg_num c.project_uuid c.url_topic msg_count s).0 in
      let s2 =
        (store.increment_daily_topic_msg_count c.project_uuid c.url_topic msg_count
          (c.publish_time / day * day) s1).0 in
      let s3 = (store.increment_topic_bytes c.project_uuid c.url_topic (total_size ms) s2).0 in
      let s4 = (store.update_topic_latest_publish c.project_uuid c.url_topic c.publish_time s3).0 in
      (store.update_topic_publish_rate c.project_uuid c.url_topic
        (rate_of c.publish_time topic.latest_publish msg_count) s4).0

  abbrev valid_or_error : Error → Option ApiError
  valid_or_error none = none
  valid_or_error (some e) = some (if e == text "500" then schema_error else invalid_data e)

  -- The error of `ValidateMessages` under the first schema that was found.
  abbrev by_first : Result (List (Schema Raw)) → List Message → Option (Option ApiError)
  by_first (ok []) ms = some (some schema_error)
  by_first (ok (q ∷ qs)) ms =
      some (valid_or_error (validate_messages lang q (map (λ (m : Message). m.data_) ms)))
  by_first (err e) ms = some (some schema_error)
  by_first panic ms = none

  abbrev by_reference : Result (Text × Text) → List Message → S → Option (Option ApiError)
  by_reference (ok (project, name)) ms s =
      by_first (Schemas.Operations.find lang store c.project_uuid [] name s) ms
  by_reference (err e) ms s = some (some schema_error)
  by_reference panic ms s = none

  -- The check against the topic's schema, if it has one; `none` is a panic.
  unfoldable pub schema_check : Topic → List Message → S → Option (Option ApiError)
  schema_check topic ms s =
      if is_empty topic.schema then some none else by_reference (extract_schema topic.schema) ms s

  abbrev pub exported : Option Text → Outcome Text
  exported none = fail export_json
  exported (some json) = done json

  abbrev pub after_publish :
      Topic → List Message → S → B × (List Text × Option ApiError) → (S × B) × Outcome Text
  after_publish topic ms s (b, (ids, some e)) = ((s, b), fail e)
  after_publish topic ms s (b, (ids, none)) =
      ((count_published topic ms s, b), exported (to_json ids))

  abbrev pub after_check :
      Topic → List Message → Option (Option ApiError) → S × B → (S × B) × Outcome Text
  after_check topic ms none sb = (sb, panicked)
  after_check topic ms (some (some e)) sb = (sb, fail e)
  after_check topic ms (some none) (s, b) =
      after_publish topic ms s (publish_all brk (broker_topic c.project_uuid c.url_topic) ms [] b)

  abbrev pub with_body : Topic → Body (List Message) → S × B → (S × B) × Outcome Text
  with_body topic unreadable sb = (sb, fail invalid_request_body)
  with_body topic malformed sb = (sb, fail (invalid_argument (text "Message")))
  with_body topic (parsed ms) (s, b) = after_check topic ms (schema_check topic ms s) (s, b)

  abbrev pub with_topics : List Topic → Error → Body (List Message) → S × B → (S × B) × Outcome Text
  with_topics topics (some e) body sb = (sb, fail generic_backend)
  with_topics [] none body sb = (sb, fail (not_found (text "Topic")))
  with_topics (topic ∷ topics) none body (s, b) =
      if c.auth_resource
        && is_publisher c.roles
        && not (per_resource store c.project_uuid (text "topics") c.url_topic c.user_uuid s)
      then ((s, b), fail forbidden)
      else with_body topic body (s, b)

  -- `TopicPublish`
  unfoldable pub topic_publish : Body (List Message) → S × B → (S × B) × Outcome Text
  topic_publish body (s, b) =
      let (s', results) = find z lang store c.project_uuid [] c.url_topic [] (pos 0) s in
      with_topics results.0.topics results.1 body (s', b)
