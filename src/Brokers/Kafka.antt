-- ===== src/Brokers/Kafka.antt =====
-- `Consume`, `GetMinOffset` and `GetMaxOffset` of brokers/kafka.go. The answers of the Kafka client
-- are arguments, and what the `select` of the loop receives is a list of events.
pub mod Batch
pub mod Lock
pub mod Producer
use argo_messaging.Base.{
  Text, Error, is_nil, Bool, true, ◌&&◌, ◌||◌, Option, none, some, List, [], ◌∷◌, ◌++◌,
  if◌then◌else◌,
}
use argo_messaging.Base.Int.{ℤ, pos, negsuc, add64, leb_ℤ, ltb_ℤ}
use argo_messaging.Brokers.{offset_off}

-- What a round of the loop receives: the request was cancelled, the time is over, or a message.
pub data Event : Type 0 where
  done : Event
  timeout : Event
  message : Text → Event

-- `consumed >= max`, or the last known offset is reached and nothing is to be waited for.
abbrev pub stops : Bool → ℤ → ℤ → ℤ → ℤ → Bool
stops imm max offset loff consumed =
    leb_ℤ max consumed || (ltb_ℤ (add64 loff (negsuc 0)) (add64 offset consumed) && imm)

-- `ConsumerLoop` over its two variables; it still waits where the events are used up.
unfoldable pub consumer_loop : Bool → ℤ → ℤ → ℤ → ℤ → List Text → List Event → Option (List Text)
consumer_loop imm max offset loff consumed messages [] = none
consumer_loop imm max offset loff consumed messages (done ∷ es) = some messages
consumer_loop imm max offset loff consumed messages (timeout ∷ es) = some messages
consumer_loop imm max offset loff consumed messages (message v ∷ es) =
    let rest =
      consumer_loop imm max offset loff (add64 consumed (pos 1)) (messages ++ (v ∷ [])) es in
    if stops imm max offset loff (add64 consumed (pos 1)) then some (messages ++ (v ∷ [])) else rest

-- The client: the newest and the oldest offset of a topic, and the consumer of its partition.
pub record Client : Type 0 where
  pub newest : Text → ℤ × Error
  pub oldest : Text → ℤ × Error
  pub consume_partition : Text → ℤ → Error
  pub events : Text → ℤ → List Event
  pub close : Text → ℤ → Error  -- of the consumer, which is deferred

-- `GetMaxOffset`; an error is only logged.
unfoldable pub get_max_offset : Client → Text → ℤ
get_max_offset client topic = (client.newest topic).0

-- `GetMinOffset`; an error is only logged.
unfoldable pub get_min_offset : Client → Text → ℤ
get_min_offset client topic = (client.oldest topic).0

-- What a call of `Consume` comes to: it returns, it still waits, or `log.Fatal` ends the process.
pub data Consumption : Type 0 where
  answers : List Text → Error → Consumption
  waits : Consumption
  exits : Consumption

-- What `Consume` comes to for the error of closing the consumer and for what the loop gets.
abbrev pub returned : Error → Option (List Text) → Consumption
returned e none = waits
returned none (some messages) = answers messages none
returned (some e) (some messages) = exits

-- `Consume`
unfoldable pub consume : Client → Text → ℤ → Bool → ℤ → Consumption
consume client topic offset imm max =
    let (loff, e) = client.newest topic in
    if is_nil e
    then (let (old_off, e') = client.oldest topic in
        if is_nil e'
        then if leb_ℤ loff offset
          then answers [] none
          else if ltb_ℤ offset old_off
          then answers [] (some offset_off)
          else if is_nil (client.consume_partition topic offset)
          then returned (client.close topic offset)
              (consumer_loop imm max offset loff (pos 0) [] (client.events topic offset))
          else answers [] (client.consume_partition topic offset)
        else answers [] e')
    else answers [] e
