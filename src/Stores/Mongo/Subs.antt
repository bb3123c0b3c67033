-- ===== src/Stores/Mongo/Subs.antt =====
-- The subscriptions of the store in MongoDB.
use argo_messaging.Base.{
  Text, text, text_eq, Error, Result, ok, err, ◌==◌, Bool, true, ◌&&◌, ◌||◌, not, Option, none,
  some, List, [], ◌∷◌, is_empty, contains, if◌then◌else◌, ◌⊎◌, inl, inr,
}
use argo_messaging.Base.Int.{ℤ, pos, int_eq, leb_ℤ, ltb_ℤ}
use argo_messaging.Stores.Models.{Time, zero_time, Rate, QSub}
use argo_messaging.Stores.Times.{Zulu, elapsed_seconds, time_or_zero}
use argo_messaging.Stores.Interface.{Page, PushFields}
use argo_messaging.Stores.Mongo.{
  Driver, Mongo, ◌>>=◌, ◌>>◌, pure, query, fatal_unless_not_found, on_subscriptions, inserted,
}
use argo_messaging.Stores.Mongo.Pages.{query_page}

-- `bson.M{"project_uuid": projectUUID, "name": name}`
unfoldable pub sub_selector : Text → Text → QSub → Bool
sub_selector project_uuid name s = s.project_uuid == project_uuid && s.name == name

-- `"acl": bson.M{"$in": []string{userUUID}}`, where a user is given.
abbrev sees : Text → QSub → Bool
sees user_uuid s = if is_empty user_uuid then true else contains user_uuid s.acl

-- The document, if one was found; `QSub{}` has `NextOffset` 0, so it is refused at once.
abbrev pub found_sub : Text ⊎ QSub → Option QSub
found_sub (inr s) = some s
found_sub (inl e) = none

-- The tests of `UpdateSubOffsetAck`.
unfoldable pub ack_refusal : Zulu → ℤ → Text → Option QSub → Error
ack_refusal z offset ts none = some (text "no ack pending")
ack_refusal z offset ts (some s) =
    if s.next_offset == pos 0
    then some (text "no ack pending")
    else if leb_ℤ offset s.offset || ltb_ℤ s.next_offset offset
    then some (text "wrong ack")
    else if ltb_ℤ s.ack
        (elapsed_seconds (time_or_zero (z.parse ts)) (time_or_zero (z.parse s.pending_ack)))
    then some (text "ack timeout")
    else none

-- The subscription with a new offset and no pull that waits.
abbrev pub acknowledged : ℤ → QSub → QSub
acknowledged offset s = record s { offset = offset; next_offset = pos 0; pending_ack = [] }

abbrev one_or_empty : List QSub → Result QSub
one_or_empty [] = err (text "empty")
one_or_empty (s ∷ ss) = ok s

module _ {C : Type 0 → Type 0} (driver : Driver C) where
  abbrev change_sub : Text → Text → (QSub → QSub) → Mongo C Error
  change_sub project_uuid name change =
      on_subscriptions (driver.update (sub_selector project_uuid name) change)

  -- `UpdateSubPull`
  unfoldable pub update_sub_pull : Text → Text → ℤ → Text → Mongo C Error
  update_sub_pull project_uuid name next_offset ts = do
    e ← change_sub project_uuid name (λ s. record s { next_offset = next_offset; pending_ack = ts })
    fatal_unless_not_found e
    pure e

  -- The end of `UpdateSubOffsetAck`.
  unfoldable pub acknowledge : Text → Text → ℤ → Error → Mongo C Error
  acknowledge project_uuid name offset (some refusal) = pure (some refusal)
  acknowledge project_uuid name offset none = do
    e ← change_sub project_uuid name (acknowledged offset)
    fatal_unless_not_found e
    pure none

  -- `UpdateSubOffsetAck`; the error of `Find` is not looked at.
  unfoldable pub update_sub_offset_ack : Zulu → Text → Text → ℤ → Text → Mongo C Error
  unfolding acknowledge
  update_sub_offset_ack z project_uuid name offset ts db =
      acknowledge project_uuid name offset
        (ack_refusal z offset ts
          (found_sub (driver.one (sub_selector project_uuid name) db.subscriptions)))
        db

  -- `UpdateSubOffset`
  unfoldable pub update_sub_offset : Text → Text → ℤ → Mongo C (Unit {0})
  update_sub_offset project_uuid name offset = do
    e ← change_sub project_uuid name (acknowledged offset)
    fatal_unless_not_found e

  -- `QuerySubs`
  unfoldable pub query_subs : Text → Text → Text → Text → ℤ → Mongo C (Page QSub)
  query_subs project_uuid user_uuid name page_token page_size =
      query_page driver (λ (s : QSub). s.id) (λ db. db.subscriptions)
        (λ s. s.project_uuid == project_uuid && sees user_uuid s) (λ s. s.name) name page_token
        page_size

  -- `QuerySubsByTopic`
  unfoldable pub query_subs_by_topic : Text → Text → Mongo C (List QSub × Error)
  query_subs_by_topic project_uuid topic = do
    results ← query (λ db.
        driver.all
          (λ s.
            s.project_uuid == project_uuid && (if is_empty topic then true else s.topic == topic))
          db.subscriptions)
    pure (results, none)

  -- `QuerySubsByACL`
  unfoldable pub query_subs_by_acl : Text → Text → Mongo C (List QSub × Error)
  query_subs_by_acl project_uuid user = do
    results ←
        query
          (λ db. driver.all (λ s. s.project_uuid == project_uuid && sees user s) db.subscriptions)
    pure (results, none)

  -- `QueryPushSubs`
  unfoldable pub query_push_subs : Mongo C (List QSub)
  query_push_subs =
      query (λ db. driver.all (λ (s : QSub). not (is_empty s.push_endpoint)) db.subscriptions)

  -- `QueryOneSub`
  unfoldable pub query_one_sub : Text → Text → Mongo C (Result QSub)
  query_one_sub project_uuid name = do
    results ← query (λ db. driver.all (sub_selector project_uuid name) db.subscriptions)
    pure (one_or_empty results)

  -- `InsertSub`; the driver gives the `_id`.
  unfoldable pub insert_sub : Text → Text → Text → ℤ → ℤ → PushFields → Time → Mongo C Error
  insert_sub project_uuid name topic offset ack push created_on = inserted (
      on_subscriptions (
        driver.insert (record {
          id = 0;
          project_uuid = project_uuid;
          name = name;
          topic = topic;
          offset = offset;
          next_offset = pos 0;
          pending_ack = [];
          push_endpoint = push.push_endpoint;
          max_messages = push.max_messages;
          authorization_type = push.authorization_type;
          authorization_header = push.authorization_header;
          ack = ack;
          ret_policy = push.ret_policy;
          ret_period = push.ret_period;
          msg_num = pos 0;
          total_bytes = pos 0;
          verification_hash = push.verification_hash;
          verified = push.verified;
          latest_consume = zero_time;
          consume_rate = record { count = pos 0; nanoseconds = 0 };
          created_on = created_on;
          acl = [];
        })))

  -- `RemoveSub`
  unfoldable pub remove_sub : Text → Text → Mongo C Error
  remove_sub project_uuid name = on_subscriptions (driver.remove (sub_selector project_uuid name))

  -- `RemoveProjectSubs`
  unfoldable pub remove_project_subs : Text → Mongo C Error
  remove_project_subs project_uuid =
      on_subscriptions (driver.remove_all (λ s. s.project_uuid == project_uuid))

  -- `ModAck`
  unfoldable pub mod_ack : Text → Text → ℤ → Mongo C Error
  mod_ack project_uuid name ack = change_sub project_uuid name (λ s. record s { ack = ack })

  -- `ModSubPush`
  unfoldable pub mod_sub_push : Text → Text → PushFields → Mongo C Error
  mod_sub_push project_uuid name push = change_sub project_uuid name (λ s. record s {
    push_endpoint = push.push_endpoint;
    authorization_type = push.authorization_type;
    authorization_header = push.authorization_header;
    max_messages = push.max_messages;
    ret_policy = push.ret_policy;
    ret_period = push.ret_period;
    verification_hash = push.verification_hash;
    verified = push.verified;
  })

  -- `IncrementSubMsgNum`
  unfoldable pub increment_sub_msg_num : Text → Text → ℤ → Mongo C Error
  increment_sub_msg_num project_uuid name num = on_subscriptions (
      driver.increment (sub_selector project_uuid name) (λ s. s.msg_num)
        (λ n s. record s { msg_num = n }) num)

  -- `IncrementSubBytes`
  unfoldable pub increment_sub_bytes : Text → Text → ℤ → Mongo C Error
  increment_sub_bytes project_uuid name total_bytes = on_subscriptions (
      driver.increment (sub_selector project_uuid name) (λ s. s.total_bytes)
        (λ n s. record s { total_bytes = n }) total_bytes)

  -- `UpdateSubLatestConsume`
  unfoldable pub update_sub_latest_consume : Text → Text → Time → Mongo C Error
  update_sub_latest_consume project_uuid name date =
      change_sub project_uuid name (λ s. record s { latest_consume = date })

  -- `UpdateSubConsumeRate`
  unfoldable pub update_sub_consume_rate : Text → Text → Rate → Mongo C Error
  update_sub_consume_rate project_uuid name rate =
      change_sub project_uuid name (λ s. record s { consume_rate = rate })
