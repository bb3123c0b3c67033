-- ===== src/Brokers/Kafka/Producer.antt =====
-- `Publish` of brokers/kafka.go. The producer of the Kafka client, the JSON of a message and the time of
-- the publication are arguments.
use argo_messaging.Base.{Text, Error}
use argo_messaging.Base.Decimal.{format_int}
use argo_messaging.Messages.{Message}
use argo_messaging.Brokers.{Published}
use argo_messaging.Brokers.Kafka.{Client, get_max_offset}

-- The message as it is sent: its id is the newest offset, asked for before.
abbrev pub stamped : Client → Text → Text → Message → Message
stamped client now topic msg = record msg {
  id = format_int (get_max_offset client topic);
  pub_time = now;
}

-- `Publish`; `send` is `SendMessage` of the producer, and the partition and the offset that it returns
-- are read by no handler.
unfoldable pub publish :
    {B : Type 0}
    → Client
    → (Text → Text → B → B × Error)
    → (Message → Text)
    → Text
    → Text
    → Message
    → B
    → B × Published
publish client send to_json now topic msg b =
    let m = stamped client now topic msg in
    let (b', e) = send topic (to_json m) b in
    (b', record { msg_id = m.id; topic = topic; error = e })
