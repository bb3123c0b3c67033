-- ===== src/Push/Pusher.antt =====
-- A pusher of push/push.go and its method `push`. Its sender and manager are those of the manager, and
-- its rate is its period in milliseconds. The sender and the JSON of messages are arguments.
use argo_messaging.Base.{
  Text, Error, ◌==◌, text_eq, Bool, true, Option, none, some, List, [], ◌∷◌, ◌++◌, length, ltb,
  if◌then◌else◌, ℕ,
}
use argo_messaging.Base.Int.{ℤ, pos, add64}
use argo_messaging.Stores.Times.{Zulu}
use argo_messaging.Stores.Interface.{Store}
use argo_messaging.Messages.{Message, size}
use argo_messaging.Brokers.{Broker, offset_off}
use argo_messaging.Subscriptions.{Subscription}
use argo_messaging.Subscriptions.Operations.{find}
use argo_messaging.Handlers.Offsets.{broker_topic}

pub record Pusher : Type 0 where
  pub id : ℕ
  pub sub : Subscription
  pub endpoint : Text
  pub retry_policy : Text
  pub retry_period : ℤ  -- int
  pub stop : List ℕ  -- a channel with room for two
  pub running : Bool

-- `p.stop <- code`, which waits where the channel is full.
unfoldable pub send_stop : ℕ → Pusher → Option Pusher
send_stop code p =
    if ltb (length p.stop) 2 then some (record p { stop = p.stop ++ (code ∷ []) }) else none

-- What a call of `push` comes to.
pub data Pushed (W : Type 0) : Type 0 where
  pushed : Pusher → W → Pushed W
  waits : Pushed W
  panics : Pushed W

abbrev stopping : {W : Type 0} → Option Pusher → W → Pushed W
stopping none w = waits
stopping (some p) w = pushed p w

-- `Send` of the sender, over the state of the endpoints: the message and the endpoint.
abbrev pub Sender : Type 0 → Type 0
Sender E = Text → Text → E → E × Error

module _ {S B E : Type 0} (z : Zulu) (store : Store S) (brk : Broker B) (send : Sender E)
    (load : Text → Message) (to_json : Text → Message → Text) where
  -- The three updates after a message is delivered.
  unfoldable pub delivered : Subscription → Message → S → S
  delivered sub m s =
      let s1 = store.update_sub_offset sub.project_uuid sub.name (add64 (pos 1) sub.offset) s in
      let s2 = (store.increment_sub_msg_num sub.project_uuid sub.name (pos 1) s1).0 in
      (store.increment_sub_bytes sub.project_uuid sub.name (size m) s2).0

  abbrev after_send : Subscription → Message → Error → S → S
  after_send sub m none s = delivered sub m s
  after_send sub m (some e) s = s

  -- The first of the consumed messages is sent.
  unfoldable pub forward : Pusher → List Text → S × (B × E) → Pushed (S × (B × E))
  forward p [] w = pushed p w
  forward p (msg ∷ msgs) (s, (b, e)) =
      let m = load msg in
      let (e', error) = send (to_json p.sub.full_name m) p.endpoint e in
      pushed p (after_send p.sub m error s, (b, e'))

  -- A second try from the oldest offset that there is.
  abbrev pub from_oldest : Pusher → Text → S × (B × E) → Pushed (S × (B × E))
  from_oldest p topic (s, (b, e)) =
      let offset = brk.get_min_offset topic b in
      let p' = record p { sub = record p.sub { offset = offset } } in
      let (b', (msgs, error)) = brk.consume topic offset true (pos 1) b in
      elim error [ none ↦ forward p' msgs (s, (b', e)) | some message ↦ pushed p' (s, (b', e)) ]

  abbrev pub consuming : Pusher → S × (B × E) → Pushed (S × (B × E))
  consuming p (s, (b, e)) =
      let topic = broker_topic p.sub.project_uuid p.sub.topic in
      let (b', (msgs, error)) = brk.consume topic p.sub.offset true (pos 1) b in
      elim error [
        | none ↦ forward p msgs (s, (b', e))
        | some message ↦
            (if message == offset_off
              then from_oldest p topic (s, (b', e))
              else forward p msgs (s, (b', e)))
      ]

  abbrev pub with_subs : Pusher → List Subscription → Error → S × (B × E) → Pushed (S × (B × E))
  with_subs p [] none w = stopping (send_stop 1 p) w
  with_subs p [] (some e) w = panics
  with_subs p (sub ∷ subs) e w = consuming (record p { sub = sub }) w

  -- `push`
  unfoldable pub push : Pusher → S × (B × E) → Pushed (S × (B × E))
  push p (s, be) =
      let (s', (res, e)) = find z store p.sub.project_uuid [] p.sub.name [] (pos 0) s in
      with_subs p res.subscriptions e (s', be)
