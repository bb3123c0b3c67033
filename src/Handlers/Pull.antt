-- ===== src/Handlers/Pull.antt =====
-- `SubPull` of handlers/subscriptions.go. Consuming from the broker changes its state. A consumption
-- is taken to be no earlier than the last one.
pub mod Ids
pub mod Acknowledgement
use argo_messaging.Base.{
  ℕ, ◌-◌, Text, text, Error, is_nil, ◌==◌, nat_eq, text_eq, Bool, true, false, ◌&&◌, ◌||◌, not,
  Option, none, some, List, [], ◌∷◌, ◌++◌, length, is_empty, if◌then◌else◌, Result, ok, err, panic,
}
use argo_messaging.Base.Int.{ℤ, pos, add64, ltb_ℤ, leb_ℤ}
use argo_messaging.Base.Decimal.{format_int, parse_int}
use argo_messaging.Stores.Models.{Time, Rate}
use argo_messaging.Stores.Times.{Zulu}
use argo_messaging.Stores.Interface.{Store}
use argo_messaging.Brokers.{Broker, offset_off}
use argo_messaging.Messages.{Message, RecMsg, rec_total_size}
use argo_messaging.Schemas.{Lang}
use argo_messaging.Topics
use argo_messaging.Auth.{is_push_worker, is_service_admin, is_consumer, per_resource}
use argo_messaging.Subscriptions.{Subscription, is_empty_push_config}
use argo_messaging.Subscriptions.Operations.{find}
use argo_messaging.Subscriptions.AckId.{ack_prefix}
use argo_messaging.Handlers.{
  Outcome, done, fail, Body, unreadable, malformed, parsed, ApiError, invalid_request_body,
  invalid_argument, not_found, forbidden, push_conflict, pull_no_topic, generic_backend,
  generic_internal, export_json,
}
use argo_messaging.Handlers.Offsets.{broker_topic}

-- `SubPullOptions`
pub record PullOptions : Type 0 where
  pub ret_imm : Text
  pub max_msg : Text

-- The context of a request, with the times of its two calls of `time.Now`.
pub record Context : Type 0 where
  pub project_uuid : Text
  pub url_project : Text
  pub url_sub : Text
  pub user_uuid : Text
  pub roles : List Text
  pub auth_resource : Bool
  pub push_enabled : Bool
  pub consume_time : Time
  pub pull_time : Time

-- `LoadMsgJSON` and `ExportJSON` of messages/message.go
pub record Json : Type 0 where
  pub load_msg : Text → Option Message
  pub export_list : List RecMsg → Option Text

abbrev or_else : Option ℤ → ℤ → ℤ
or_else none n = n
or_else (some m) n = m

-- `max`
unfoldable pub max_messages : PullOptions → ℤ
max_messages p = if is_empty p.max_msg then pos 1 else or_else (parse_int p.max_msg) (pos 1)

-- `limit`
unfoldable pub limit_of : PullOptions → ℤ
limit_of p = or_else (parse_int p.max_msg) (pos 0)

-- `curRec`: a message with its offset as its id.
abbrev pub received_msg : Text → ℤ → Message → RecMsg
received_msg prefix offset m = record {
  ack_id = prefix ++ format_int offset;
  msg = record m { id = format_int offset };
}

-- The loop over the consumed messages, from position `i`; `none` where one is not a message in JSON.
unfoldable pub received :
    (Text → Option Message) → Text → ℤ → ℤ → ℤ → List Text → Option (List RecMsg)
received load prefix offset limit i [] = some []
received load prefix offset limit i (msg ∷ msgs) =
    let rest = received load prefix offset limit (add64 i (pos 1)) msgs in
    if ltb_ℤ (pos 0) limit && leb_ℤ limit i then some [] else elim (load msg) [
      | none ↦ none
      | some m ↦ elim rest [
        | none ↦ none
        | some recs ↦ some (received_msg prefix (add64 offset i) m ∷ recs)
      ]
    ]

abbrev rate_of : Time → Time → ℤ → Rate
rate_of consume_time latest count = record {
  count = count;
  nanoseconds = if latest == 0 then 1000000000 else consume_time - latest;
}

module _ {Raw S B : Type 0} (z : Zulu) (lang : Lang Raw) (json : Json) (store : Store S)
    (brk : Broker B) (c : Context) where
  -- The access tests, in their order; `none` lets the request through.
  unfoldable pub refusal : Subscription → S → Option ApiError
  refusal sub s =
      let push = not (is_empty_push_config sub.push_cfg) in
      if push && not c.push_enabled && is_push_worker c.roles
      then some push_conflict
      else if push && not (is_push_worker c.roles) && not (is_service_admin c.roles)
      then some forbidden
      else if c.auth_resource
          && is_consumer c.roles
          && not (per_resource store c.project_uuid (text "subscriptions") sub.name c.user_uuid s)
      then some forbidden
      else none

  -- The messages, with the offset from which they were read and a new try where the offset was too old.
  unfoldable pub consumed :
      Text → Bool → ℤ → Subscription → S × B → (S × B) × (ℤ × (List Text × Error))
  consumed topic imm max sub (s, b) =
      let (b1, (msgs, e)) = brk.consume topic sub.offset imm max b in
      elim e [
        | none ↦ ((s, b1), (sub.offset, (msgs, none)))
        | some message ↦
            (if message == offset_off
              then (let offset = brk.get_min_offset topic b1 in
                  let s1 = store.update_sub_offset c.project_uuid sub.name offset s in
                  let (b2, (msgs', e')) = brk.consume topic offset imm max b1 in
                  ((s1, b2), (offset, (msgs', e'))))
              else ((s, b1), (sub.offset, (msgs, some message))))
      ]

  -- The counters of the subscription.
  unfoldable pub count_metrics : Subscription → ℤ → List RecMsg → S → S
  count_metrics sub msg_count recs s =
      let s1 = (store.increment_sub_msg_num c.project_uuid c.url_sub msg_count s).0 in
      let s2 = (store.increment_sub_bytes c.project_uuid c.url_sub (rec_total_size recs) s1).0 in
      let s3 = (store.update_sub_latest_consume c.project_uuid sub.name c.consume_time s2).0 in
      (store.update_sub_consume_rate c.project_uuid sub.name
        (rate_of c.consume_time sub.latest_consume msg_count) s3).0

  -- The response, after which the store notes up to where messages were handed out.
  abbrev pub handed_out :
      Subscription → ℤ → List RecMsg → Option Text → S × B → (S × B) × Outcome Text
  handed_out sub offset recs none (s, b) = ((s, b), fail export_json)
  handed_out sub offset recs (some out) (s, b) = (
    (
      (store.update_sub_pull sub.project_uuid sub.name (add64 (pos (length recs)) offset)
          (z.format c.pull_time) s).0,
      b,
    ),
    done out,
  )

  abbrev bad_message : ApiError
  bad_message =
      generic_internal (text "Message retrieved from broker network has invalid JSON Structure")

  abbrev pub with_messages :
      PullOptions → Subscription → (S × B) × (ℤ × (List Text × Error)) → (S × B) × Outcome Text
  with_messages p sub (sb, (offset, (msgs, some e))) = (sb, fail generic_backend)
  with_messages p sub ((s, b), (offset, (msgs, none))) =
      elim (received json.load_msg (ack_prefix c.url_project c.url_sub) offset (limit_of p) (pos 0)
        msgs) [
          | none ↦ ((s, b), fail bad_message)
          | some recs ↦
              handed_out sub offset recs (json.export_list recs)
                (count_metrics sub (pos (length msgs)) recs s, b)
        ]

  abbrev pub with_options : Body PullOptions → Subscription → S × B → (S × B) × Outcome Text
  with_options unreadable sub sb = (sb, fail invalid_request_body)
  with_options malformed sub sb = (sb, fail (invalid_argument (text "Pull Parameters")))
  with_options (parsed p) sub sb = with_messages p sub (
      consumed (broker_topic sub.project_uuid sub.topic) (not (p.ret_imm == text "false"))
        (max_messages p) sub sb)

  abbrev pub with_access :
      Option ApiError → Body PullOptions → Subscription → S × B → (S × B) × Outcome Text
  with_access (some e) body sub sb = (sb, fail e)
  with_access none body sub (s, b) =
      let (s', exists) = Topics.has_topic z lang store c.project_uuid sub.topic s in
      if exists then with_options body sub (s', b) else ((s', b), fail pull_no_topic)

  abbrev pub with_subs :
      List Subscription → Error → Body PullOptions → S × B → (S × B) × Outcome Text
  with_subs subs (some e) body sb = (sb, fail generic_backend)
  with_subs [] none body sb = (sb, fail (not_found (text "Subscription")))
  with_subs (sub ∷ subs) none body (s, b) = with_access (refusal sub s) body sub (s, b)

  -- `SubPull`
  unfoldable pub sub_pull : Body PullOptions → S × B → (S × B) × Outcome Text
  sub_pull body (s, b) =
      let (s', results) = find z store c.project_uuid [] c.url_sub [] (pos 0) s in
      with_subs results.0.subscriptions results.1 body (s', b)
