-- ===== src/Lib.antt =====
-- The ARGO Messaging service: a publish and subscribe service over HTTP, in front of a message broker
-- and a store.
--
-- The parts and how they interact. A request passes the wrappers of handlers/handlers.go, in the order
-- of routing.go (Handlers/Access), and reaches a handler: of handlers/subscriptions.go (Handlers/Ack,
-- Handlers/Offsets, Handlers/Pull, Handlers/Subscriptions and its children), of handlers/topics.go
-- (Handlers/Publish, Handlers/Topics), or of handlers/projects.go, users.go, registrations.go and
-- schemas.go (the modules of Handlers of those names). Handlers use the packages subscriptions
-- (Subscriptions), topics (Topics), projects (Projects), schemas (Schemas), auth (Auth) and messages
-- (Messages), which keep nothing themselves and work on a store, on a broker to pull or publish
-- (Brokers), and on the push server where a subscription is pushed (Push/Client). Push/Pusher and
-- Push/Manager are the pushers of push/push.go inside the service. Validation is
-- validation/validation.go, and Subscriptions/Verification the check of a push endpoint.
--
-- State. The interface of stores/store.go is the record Store (Stores/Interface): a method that
-- changes the store returns the new store. Stores/Mock models stores/mock.go with MockStore as the
-- record Mock and fills the interface in Stores/Mock/Instance; packages and handlers take any store as
-- a parameter, and theorems that need to know the store are about this one. Stores/Mongo models the
-- methods of stores/mongo.go: the database is its collections, the driver is a parameter that may fail
-- at every call, and a call of log.Fatal ends the run; Stores/Mongo/Calls and its theorems compare the
-- two stores. The broker's interface is the record Broker; Brokers/Kafka models Consume and Publish of
-- brokers/kafka.go, with the sarama client as a parameter and what a select receives as a list of
-- events; Brokers/Kafka/Lock models lockForTopic and unlockForTopic as steps of goroutines, and an
-- interleaving as the list of the goroutines that step. The push server is the record PushServer over
-- a state of its own. Pushers are shared by pointer, a pointer being a number, and the goroutines that
-- serve them are a list of the pointers; a history is any sequence of whole calls, but for StartAll,
-- and whole rounds.
--
-- Conventions. A text is a list of bytes; an int or int64 is a signed integer of Base/Int, and a sum
-- in the source is add64, which wraps; a Go error is an optional text; a call that may panic returns a
-- Result, or an option of its answer. A map that may be nil is an option. A handler returns the new
-- state and the calls of respondOK and respondErr it made, in order; the shorter handlers are do
-- blocks of Handlers/Steps, where a step goes on or ends the handler with what it has written.
-- Functions keep the names of the source in lower case: subscriptions.ModAck is mod_ack of
-- Subscriptions/Operations, MockStore.ModAck is mod_ack of Stores/Mock/Subs, and MongoStore.ModAck is
-- mod_ack of Stores/Mongo/Subs.
--
-- Loops are recursion on the list they range over. The loop of removeSingleValue, which changes the
-- slice it ranges over, is recursion on the number of rounds that range fixes. The loop of Consume is
-- recursion on the events, and a call may still wait at their end. A client that follows page tokens
-- has fuel, and more than the number of listed topics is enough.
--
-- Parameters. Zulu is the time layout that the source uses, which reads what it prints to the second
-- up to the year 9999. Lang is what package schemas takes from the JSON schema and Avro libraries,
-- Json the JSON forms of messages. Times of a request, generated uuids and tokens are arguments.
-- Rates, float64 in the source, are quotients that are not rounded, and a consumption or a publication
-- is taken to be no earlier than the last one. A selector of a query to the database is a test on the
-- documents.
--
-- Not modelled: DeleteTopic, TimeToOffset and the connection in brokers/kafka.go, brokers/mock.go,
-- StopAll, RemoveProjectAll and LoadPushSubs of push/push.go, the HTTP client of push/sender.go, the
-- transport of the push server's client, the paginated queries for users and the two handlers that use
-- them, the metrics with their counts and aggregations in both stores, the connection to the database,
-- and the configuration.
pub mod Base
pub mod Validation
pub mod Subscriptions
pub mod Stores
pub mod Projects
pub mod Schemas
pub mod Topics
pub mod Auth
pub mod Messages
pub mod Brokers
pub mod Handlers
pub mod Push
pub mod Examples
