-- ===== src/Brokers.antt =====
-- brokers/broker.go: the methods of the message broker that the handlers call. Reading from the
-- broker changes what its client has read, so `Consume` returns a new state.
pub mod Kafka
use argo_messaging.Base.{Text, text, Error, Bool, List}
use argo_messaging.Base.Int.{ℤ}
use argo_messaging.Messages.{Message}

-- `ErrOffsetOff`
abbrev pub offset_off : Text
offset_off = text "Offset is off"

-- What the handlers read of what `Publish` returns.
pub record Published : Type 0 where
  pub msg_id : Text
  pub topic : Text
  pub error : Error

pub record Broker (B : Type 0) : Type 0 where
  pub get_min_offset : Text → B → ℤ
  pub get_max_offset : Text → B → ℤ
  -- topic, offset, imm, max
  pub consume : Text → ℤ → Bool → ℤ → B → B × (List Text × Error)
  -- topic, message
  pub publish : Text → Message → B → B × Published
