-- ===== src/Subscriptions/Operations.antt =====
-- `Find`, `HasSub`, `CreateSub`, `ModAck`, `ModSubPush`, `RemoveSub`, `FindByTopic` and `FindMetric` of
-- subscriptions/subscription.go.
pub mod Deadline
pub mod Named
use argo_messaging.Base.{
  Text, text, Error, is_nil, ◌==◌, text_eq, Bool, true, false, ◌&&◌, ◌||◌, Option, none, some, List,
  [], ◌∷◌, ◌++◌, map, is_empty, if◌then◌else◌,
}
use argo_messaging.Base.Base64
use argo_messaging.Base.Int.{ℤ, pos, int_eq, ltb_ℤ}
use argo_messaging.Stores.Models.{Time, Rate, QSub}
use argo_messaging.Stores.Times.{Zulu}
use argo_messaging.Stores.Interface.{Store, Page, PushFields}
use argo_messaging.Projects.{get_name_by_uuid, has_items}
use argo_messaging.Subscriptions.{
  Subscription, PaginatedSubscriptions, new_subscription, empty_push_config, slow_start,
}

abbrev pub no_subscriptions : PaginatedSubscriptions
no_subscriptions = record { subscriptions = []; next_page_token = []; total_size = pos 0 }

abbrev pub empty_subscription : Subscription
empty_subscription = record {
  project_uuid = [];
  name = [];
  topic = [];
  full_name = [];
  full_topic = [];
  push_cfg = empty_push_config;
  ack = pos 0;
  offset = pos 0;
  next_offset = pos 0;
  created_on = [];
  latest_consume = 0;
  consume_rate = record { count = pos 0; nanoseconds = 0 };
}

pub record SubMetrics : Type 0 where
  pub msg_num : ℤ
  pub total_bytes : ℤ
  pub latest_consume : Time
  pub consume_rate : Rate

abbrev no_metrics : SubMetrics
no_metrics = record {
  msg_num = pos 0;
  total_bytes = pos 0;
  latest_consume = 0;
  consume_rate = record { count = pos 0; nanoseconds = 0 };
}

-- `retPeriod` under the slow start policy is 0.
abbrev pub normal_period : PushFields → PushFields
normal_period push = record push {
  ret_period = if push.ret_policy == slow_start then pos 0 else push.ret_period;
}

module _ {S : Type 0} (z : Zulu) (store : Store S) where
  -- `Find` after the store has answered.
  unfoldable pub found : Text → S → Page QSub → PaginatedSubscriptions × Error
  found project_uuid s page =
      if is_nil page.error
      then (let project_name = get_name_by_uuid store project_uuid s in
          if is_empty project_name then (no_subscriptions, some (text "invalid project")) else (
            record {
              subscriptions = map (new_subscription z project_name) page.items;
              next_page_token = Base64.encode page.next_page_token;
              total_size = page.total_size;
            },
            none,
          ))
      else (no_subscriptions, page.error)

  unfoldable pub find_decoded :
      Text → Text → Text → Option Text → ℤ → S → S × (PaginatedSubscriptions × Error)
  unfolding found
  find_decoded project_uuid user_uuid name none page_size s =
      (s, (no_subscriptions, some (text "illegal base64 data")))
  find_decoded project_uuid user_uuid name (some token) page_size s =
      let (s', page) = store.query_subs project_uuid user_uuid name token page_size s in
      (s', found project_uuid s' page)

  -- `Find`
  unfoldable pub find : Text → Text → Text → Text → ℤ → S → S × (PaginatedSubscriptions × Error)
  unfolding find_decoded
  find project_uuid user_uuid name page_token page_size =
      find_decoded project_uuid user_uuid name (Base64.decode page_token) page_size

  -- `HasSub`
  unfoldable pub has_sub : Text → Text → S → S × Bool
  has_sub project_uuid name s =
      let (s', res) = find project_uuid [] name [] (pos 0) s in
      (s', has_items res.0.subscriptions && is_nil res.1)

  abbrev only : List Subscription → Option Subscription
  only (t ∷ []) = some t
  only _ = none

  -- What `CreateSub` reads back.
  reflected : S × (PaginatedSubscriptions × Error) → S × (Subscription × Error)
  reflected (s, (res, e)) = elim (only res.subscriptions) [
    | some t ↦ (s, (t, e))
    | none ↦ (s, (empty_subscription, some (text "backend error")))
  ]

  -- `CreateSub`
  unfoldable pub create_sub :
      Text → Text → Text → ℤ → ℤ → PushFields → Time → S → S × (Subscription × Error)
  unfolding reflected
  create_sub project_uuid name topic offset ack push created_on s =
      let (s1, exists) = has_sub project_uuid name s in
      if exists
      then (s1, (empty_subscription, some (text "exists")))
      else (let (s2, e) =
            store.insert_sub project_uuid name topic offset (if ack == pos 0 then pos 10 else ack)
              (normal_period push) created_on s1 in
          if is_nil e
          then reflected (find project_uuid [] name [] (pos 0) s2)
          else (s2, (empty_subscription, some (text "backend error"))))

  -- `ModAck`
  unfoldable pub mod_ack : Text → Text → ℤ → S → S × Error
  mod_ack project_uuid name ack s =
      if ltb_ℤ ack (pos 0) || ltb_ℤ (pos 600) ack
      then (s, some (text "wrong value"))
      else (let (s1, exists) = has_sub project_uuid name s in
          if exists then store.mod_ack project_uuid name ack s1 else (s1, some (text "not found")))

  -- `ModSubPush`
  unfoldable pub mod_sub_push : Text → Text → PushFields → S → S × Error
  mod_sub_push project_uuid name push s =
      let (s1, exists) = has_sub project_uuid name s in
      if exists
      then store.mod_sub_push project_uuid name (normal_period push) s1
      else (s1, some (text "not found"))

  -- `RemoveSub`
  unfoldable pub remove_sub : Text → Text → S → S × Error
  remove_sub project_uuid name s =
      let (s1, exists) = has_sub project_uuid name s in
      if exists then store.remove_sub project_uuid name s1 else (s1, some (text "not found"))

  -- `FindByTopic`: the full names of the subscriptions of a topic.
  unfoldable pub find_by_topic : Text → Text → S → List Text × Error
  find_by_topic project_uuid topic s =
      let (subs, e) = store.query_subs_by_topic project_uuid topic s in
      let project_name = get_name_by_uuid store project_uuid s in
      if is_nil e
      then (
        map
            (λ (q : QSub).
              text "/projects/" ++ (project_name ++ (text "/subscriptions/" ++ q.name)))
            subs,
        none,
      )
      else ([], e)

  abbrev metrics_of : QSub → SubMetrics
  metrics_of q = record {
    msg_num = q.msg_num;
    total_bytes = q.total_bytes;
    latest_consume = q.latest_consume;
    consume_rate = q.consume_rate;
  }

  -- The loop of `FindMetric`.
  metric_loop : SubMetrics → List QSub → S → SubMetrics × Error
  metric_loop m [] s = (m, none)
  metric_loop m (q ∷ qs) s =
      let rest = metric_loop (metrics_of q) qs s in
      if is_empty (get_name_by_uuid store q.project_uuid s)
      then (m, some (text "invalid project"))
      else rest

  -- `FindMetric`
  unfoldable pub find_metric : Text → Text → S → S × (SubMetrics × Error)
  unfolding metric_loop
  find_metric project_uuid name s =
      let (s', page) = store.query_subs project_uuid [] name [] (pos 0) s in
      if has_items page.items
      then (let (m, e) = metric_loop no_metrics page.items s' in
          (s', (m, elim e [ some message ↦ some message | none ↦ page.error ])))
      else (s', (no_metrics, some (text "not found")))
