-- ===== src/Examples/TopicRequests.antt =====
-- Examples on the handlers of topics.
use argo_messaging.Base.{
  Text, text, text_eq, ◌==◌, true, false, Option, none, some, List, [], ◌∷◌, ◌≡◌, refl, ap, ◌↔◌,
  inr, contains, if◌then◌else◌, is_empty, text_beq, find_first, any,
}
use argo_messaging.Base.Int.{pos}
use argo_messaging.Stores.Mock.Instance.{mock}
use argo_messaging.Messages.{Message}
use argo_messaging.Stores.Mock.Topics
use argo_messaging.Stores.Mock.Projects
use argo_messaging.Projects.{get_name_by_uuid}
use argo_messaging.Topics.{Topic, find, has_topic, create_topic, remove_topic}
use argo_messaging.Topics.Creation.{has_topic-any}
use argo_messaging.Topics.Restoration.{create_then_remove}
use argo_messaging.Auth.Decisions.{allowed, uuids}
use argo_messaging.Handlers.{AnswersOnce, parsed, done, written, respond_err, generic_internal}
use argo_messaging.Handlers.Topics.{topic_create, topic_mod_acl, export_writes, schema_uuid_of}
use argo_messaging.Handlers.Topics.Answers.{is_expected, topic_create_answers}
use argo_messaging.Handlers.Topics.Access.{all_known, topic_mod_acl_lem}
use argo_messaging.Handlers.Publish.{Publisher, topic_publish}
use argo_messaging.Handlers.Publish.Counting.{IsCounted, topic_publish-IsCounted}
use argo_messaging.Examples.{zulu, store}
use argo_messaging.Examples.Others.{lang}
use argo_messaging.Examples.Subscribers.{broker}

abbrev publisher : Publisher
publisher = record {
  project_uuid = text "P";
  url_topic = text "t";
  user_uuid = text "U";
  roles = text "publisher" ∷ [];
  auth_resource = false;
  publish_time = 10;
}

abbrev first_of : List Text → Option Text
first_of [] = some []
first_of (id ∷ ids) = some id

abbrev two_messages : List Message
two_messages =
    (record { id = []; attr = none; data_ = text "YQ=="; pub_time = [] })
    ∷ (record { id = []; attr = none; data_ = text "Yg=="; pub_time = [] })
    ∷ []

topic_publish-IsCounted_example :
    IsCounted zulu lang first_of broker publisher
      (parsed two_messages)
      (find zulu lang (mock zulu) (text "P") [] (text "t") [] (pos 0) store).0
      tt
      (topic_publish zulu lang first_of
        (mock zulu)
        broker
        publisher
        (parsed two_messages)
        (store, tt))
topic_publish-IsCounted_example =
    topic_publish-IsCounted zulu lang first_of broker publisher (parsed two_messages) store tt

abbrev json_of : Topic → Option Text
json_of t = some t.full_name

no_schema : schema_uuid_of zulu lang (mock zulu) (text "Q") (text "v") [] store ≡ some (inr [])
unfolding schema_uuid_of is_empty
no_schema = refl

-- A project without a name.
topic_create_answers_example :
    let (s1, (topic, e)) = create_topic zulu lang (mock zulu) (text "Q") (text "v") [] 6 store in
    let (s2, outcome) =
      topic_create zulu lang (mock zulu) (text "Q") (text "v") json_of 6 (parsed []) store in
    (s2 ≡ s1)
    × (AnswersOnce outcome ↔ (is_expected e ≡ true))
    × ((m : Text)
        → e ≡ some m
        → (m == text "exists") ≡ false
        → outcome ≡ written (respond_err (generic_internal m) ∷ export_writes (json_of topic)))
topic_create_answers_example =
    topic_create_answers zulu lang (mock zulu) (text "Q") (text "v") json_of 6 [] [] store no_schema

has_acl : store.topics_acl (text "t") ≡ some (record { acl = text "V" ∷ [] })
unfolding text_beq
has_acl = refl

topic_mod_acl_lem_example :
    let users = text "UserA" ∷ [] in
    let (mk', outcome) =
      topic_mod_acl zulu lang (mock zulu) (text "P") (text "t") (parsed users) store in
    (all_known store.user_list users ≡ true
      → (outcome ≡ done [])
        × ((other user : Text)
            → allowed zulu (text "P") (text "t") users store (text "topics") other user mk' ≡ (
                if text "t" == other
                then contains user (uuids zulu (text "P") (text "t") users store)
                else allowed zulu
                    (text "P")
                    (text "t")
                    users
                    store
                    (text "topics")
                    other
                    user
                    store)))
    × (all_known store.user_list users ≡ false → (mk' ≡ store) × ¬ (outcome ≡ done []))
topic_mod_acl_lem_example =
    topic_mod_acl_lem zulu (text "P") (text "t") (text "UserA" ∷ []) store
      (record { acl = text "V" ∷ [] }) has_acl lang

named : is_empty (text "v") ≡ false
unfolding is_empty
named = refl

known_project : is_empty (get_name_by_uuid (mock zulu) (text "P") store) ≡ false
unfolding get_name_by_uuid mock Projects.query_projects find_first is_empty text_beq
known_project = refl

new_topic : (has_topic zulu lang (mock zulu) (text "P") (text "v") store).1 ≡ false
unfolding any Topics.is_topic text_beq
new_topic = ap (λ r. r.1) (has_topic-any zulu lang (text "P") (text "v") named store known_project)

create_then_remove_example :
    (remove_topic zulu lang
        (mock zulu)
        (text "P")
        (text "v")
        (create_topic zulu lang (mock zulu) (text "P") (text "v") [] 6 store).0
      ≡ (store, none))
    × (remove_topic zulu lang (mock zulu) (text "P") (text "v") store
        ≡ (store, some (text "not found")))
create_then_remove_example =
    create_then_remove zulu lang (text "P") (text "v") named [] 6 store known_project new_topic
