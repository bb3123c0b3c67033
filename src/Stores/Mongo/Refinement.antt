-- ===== src/Stores/Mongo/Refinement.antt =====
-- The calls that the two stores answer alike.
use argo_messaging.Base.{text_eq, Error, List, [], ◌∷◌, ◌≡◌, refl, ap}
use argo_messaging.Stores.Mock.State.{Mock}
use argo_messaging.Stores.Mock.Subs
use argo_messaging.Stores.Mock.Topics
use argo_messaging.Stores.Mock.Users
use argo_messaging.Stores.Mock.Projects
use argo_messaging.Stores.Mock.Schemas
use argo_messaging.Stores.Mock.Registrations
use argo_messaging.Stores.Mongo.{Driver, Db, Mongo, Ran, returned, exited, pure, ◌>>=◌}
use argo_messaging.Stores.Mongo.Subs as MongoSubs
use argo_messaging.Stores.Mongo.Topics as MongoTopics
use argo_messaging.Stores.Mongo.Users as MongoUsers
use argo_messaging.Stores.Mongo.Projects as MongoProjects
use argo_messaging.Stores.Mongo.Schemas as MongoSchemas
use argo_messaging.Stores.Mongo.Registrations as MongoRegistrations
use argo_messaging.Stores.Mongo.Laws.{Documented}
use argo_messaging.Stores.Mongo.Collections.{
  sub_update-Simulates, sub_remove-Simulates, topic_remove-Simulates, user_update-Simulates,
  user_remove-Simulates, project_remove-Simulates, schema_update-Simulates, inserted-Simulates,
  unless_not_found-Simulates, usual_error, update-Follows, insert-contents,
}
use argo_messaging.Stores.Mongo.Increments.{sub_increment-Simulates, topic_increment-Simulates}
use argo_messaging.Stores.Mongo.Calls.{
  Call, mod_ack, mod_sub_push, update_sub_pull, increment_sub_msg_num, increment_sub_bytes,
  remove_sub, increment_topic_msg_num, increment_topic_bytes, remove_topic, insert_user,
  update_user_token, remove_user, insert_project, remove_project, insert_schema, update_schema,
  register_user, IsUsual, in_memory, in_mongo, Represents, Simulates,
}

-- Calls one after another, with what each returned.
abbrev pub all_in_memory : List Call → Mock → Mock × List Error
all_in_memory [] mk = (mk, [])
all_in_memory (call ∷ calls) mk =
    let (mk1, e) = in_memory call mk in let (mk2, es) = all_in_memory calls mk1 in (mk2, e ∷ es)

abbrev pub all_in_mongo : {C : Type 0 → Type 0} → Driver C → List Call → Mongo C (List Error)
all_in_mongo driver [] = pure []
all_in_mongo driver (call ∷ calls) = do
  e ← in_mongo driver call
  es ← all_in_mongo driver calls
  pure (e ∷ es)

-- Each call is usual where it is made.
abbrev pub AreUsual : List Call → Mock → Type 0
AreUsual [] mk = Unit
AreUsual (call ∷ calls) mk = IsUsual call mk × AreUsual calls (in_memory call mk).0

module _ {C : Type 0 → Type 0} (driver : Driver C) (laws : Documented driver) where
  abbrev Holds : Db C → Mock → Type 0
  Holds = Represents driver laws

  abbrev IsAlike : Ran (Db C) Error → Mock × Error → Type 0
  IsAlike = Simulates driver laws

  call-Simulates :
      (call : Call) (db : Db C) (mk : Mock)
      → Holds db mk
      → IsUsual call mk
      → IsAlike (in_mongo driver call db) (in_memory call mk)
  unfolding Subs.mod_ack MongoSubs.mod_ack Subs.mod_sub_push MongoSubs.mod_sub_push
      Subs.update_sub_pull MongoSubs.update_sub_pull Subs.increment_sub_msg_num
      MongoSubs.increment_sub_msg_num Subs.increment_sub_bytes MongoSubs.increment_sub_bytes
      Subs.remove_sub MongoSubs.remove_sub Subs.is_sub MongoSubs.sub_selector
      Topics.increment_topic_msg_num MongoTopics.increment_topic_msg_num
      Topics.increment_topic_bytes MongoTopics.increment_topic_bytes Topics.remove_topic
      MongoTopics.remove_topic Topics.is_topic MongoTopics.topic_selector MongoUsers.insert_user
      Users.update_user_token Users.insert_user MongoUsers.update_user_token Users.remove_user
      MongoUsers.remove_user Projects.remove_project MongoProjects.remove_project
      Projects.insert_project MongoProjects.insert_project Schemas.insert_schema
      MongoSchemas.insert_schema Schemas.update_schema MongoSchemas.update_schema
      Registrations.register_user MongoRegistrations.register_user
  call-Simulates (mod_ack p n ack) db mk rep usual = sub_update-Simulates driver laws db mk _ _ rep
  call-Simulates (mod_sub_push p n f) db mk rep usual =
      sub_update-Simulates driver laws db mk _ _ rep
  call-Simulates (update_sub_pull p n off ts) db mk rep usual =
      unless_not_found-Simulates driver laws _ _ _
        (usual_error driver laws _ _ _ (
          update-Follows driver laws (MongoSubs.sub_selector p n)
            (λ s. record s { next_offset = off; pending_ack = ts }) db.subscriptions _
            rep.subscriptions))
        (sub_update-Simulates driver laws db mk _ _ rep)
  call-Simulates (increment_sub_msg_num p n num) db mk rep usual =
      sub_increment-Simulates driver laws db mk _ _ _ _ rep usual
  call-Simulates (increment_sub_bytes p n num) db mk rep usual =
      sub_increment-Simulates driver laws db mk _ _ _ _ rep usual
  call-Simulates (remove_sub p n) db mk rep usual = sub_remove-Simulates driver laws db mk _ rep
  call-Simulates (increment_topic_msg_num p n num) db mk rep usual =
      topic_increment-Simulates driver laws db mk _ _ _ _ rep usual
  call-Simulates (increment_topic_bytes p n num) db mk rep usual =
      topic_increment-Simulates driver laws db mk _ _ _ _ rep usual
  call-Simulates (remove_topic p n) db mk rep usual = topic_remove-Simulates driver laws db mk _ rep
  call-Simulates (insert_user u) db mk rep usual =
      inserted-Simulates driver laws _ _ _ (laws.insert-contents _ db.users).1 (record {
        subscriptions = rep.subscriptions;
        topics = rep.topics;
        users = insert-contents driver laws _ db.users _ rep.users;
        projects = rep.projects;
        schemas = rep.schemas;
        registrations = rep.registrations;
      })
  call-Simulates (update_user_token uuid token) db mk rep usual =
      user_update-Simulates driver laws db mk _ _ rep
  call-Simulates (remove_user uuid) db mk rep usual = user_remove-Simulates driver laws db mk _ rep
  call-Simulates (insert_project uuid n c m by d) db mk rep usual =
      inserted-Simulates driver laws _ _ _ (laws.insert-contents _ db.projects).1 (record {
        subscriptions = rep.subscriptions;
        topics = rep.topics;
        users = rep.users;
        projects = insert-contents driver laws _ db.projects _ rep.projects;
        schemas = rep.schemas;
        registrations = rep.registrations;
      })
  call-Simulates (remove_project uuid) db mk rep usual =
      project_remove-Simulates driver laws db mk _ rep
  call-Simulates (insert_schema p uuid n type raw) db mk rep usual =
      inserted-Simulates driver laws _ _ _ (laws.insert-contents _ db.schemas).1 (record {
        subscriptions = rep.subscriptions;
        topics = rep.topics;
        users = rep.users;
        projects = rep.projects;
        schemas = insert-contents driver laws _ db.schemas _ rep.schemas;
        registrations = rep.registrations;
      })
  call-Simulates (update_schema uuid n type raw) db mk rep usual =
      rw usual (schema_update-Simulates driver laws db mk _ _ rep)
  call-Simulates (register_user r) db mk rep usual =
      inserted-Simulates driver laws _ _ _ (laws.insert-contents _ db.user_registrations).1
        (record {
          subscriptions = rep.subscriptions;
          topics = rep.topics;
          users = rep.users;
          projects = rep.projects;
          schemas = rep.schemas;
          registrations = insert-contents driver laws _ db.user_registrations _ rep.registrations;
        })

  -- The process goes on, with the same list of errors.
  abbrev pub AreAlike : Ran (Db C) (List Error) → Mock × List Error → Type 0
  AreAlike exited (mk, es) = ⊥
  AreAlike (returned db es') (mk, es) = (es' ≡ es) × Holds db mk

  -- If the driver does as its documentation says, and the collections hold what the store in memory
  -- holds, then any sequence of the calls `ModAck`, `ModSubPush`, `UpdateSubPull`, `RemoveSub`,
  -- `RemoveTopic`, `IncrementSubMsgNum`, `IncrementSubBytes`, `IncrementTopicMsgNum`,
  -- `IncrementTopicBytes`, `InsertUser`, `UpdateUserToken`, `RemoveUser`, `InsertProject`,
  -- `RemoveProject`, `InsertSchema`, `UpdateSchema` and `RegisterUser`, in which no increment takes a
  -- counter out of its 64 bits and no schema is updated with nothing, gives the same errors, one by one,
  -- from the store in MongoDB as from the one in memory; the process never ends by a fatal error, and at
  -- the end the collections again hold what the store in memory holds.
  pub calls-AreAlike :
      (calls : List Call) (db : Db C) (mk : Mock)
      → Holds db mk
      → AreUsual calls mk
      → AreAlike (all_in_mongo driver calls db) (all_in_memory calls mk)
  calls-AreAlike [] db mk rep usual = (refl, rep)
  calls-AreAlike (call ∷ calls) db mk rep usual =
      first (in_mongo driver call db) (in_memory call mk) (call-Simulates call db mk rep usual.0)
        (λ db' rep'. calls-AreAlike calls db' (in_memory call mk).0 rep' usual.1)
    where
      rest :
          (e : Error) (r : Ran (Db C) (List Error)) (w : Mock × List Error)
          → AreAlike r w
          → AreAlike
              (elim r as (λ x. Ran (Db C) (List Error)) [
                | returned db' es ↦ returned db' (e ∷ es)
                | exited ↦ exited
              ])
              (w.0, e ∷ w.1)
      rest e exited w h = h
      rest e (returned db' es) w h = (ap (λ l. e ∷ l) h.0, h.1)

      first :
          (r : Ran (Db C) Error) (w : Mock × Error)
          → IsAlike r w
          → ((db' : Db C)
              → Holds db' w.0
              → AreAlike (all_in_mongo driver calls db') (all_in_memory calls w.0))
          → AreAlike
              (elim r as (λ x. Ran (Db C) (List Error)) [
                | returned db' e ↦ (all_in_mongo driver calls >>= (λ es. pure (e ∷ es))) db'
                | exited ↦ exited
              ])
              (let (mk2, es) = all_in_memory calls w.0 in (mk2, w.1 ∷ es))
      first exited w h k = h
      first (returned db' e) w h k =
          rw h.0 (rest w.1 (all_in_mongo driver calls db') (all_in_memory calls w.0) (k db' h.1))
