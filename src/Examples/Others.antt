-- ===== src/Examples/Others.antt =====
-- Examples on the broker, access, topics, projects, access lists, references and messages.
use argo_messaging.Base.{
  ◌^◌, ◌<◌, Text, text, text_eq, text_beq, is_empty, find_first, ok, err, none, some, List, [], ◌∷◌,
  ◌≡◌, refl, true, false, arith, inl, inr, not, length, In, Distinct, ◌↔◌, ◌⊎◌, is_nil, ◌&&◌, ◌||◌,
  ◌==◌, filter, contains, if◌then◌else◌, leb,
}
use argo_messaging.Base.Int.{pos}
use argo_messaging.Validation.{valid_name}
use argo_messaging.Stores.Models.{QTopic}
use argo_messaging.Stores.Mock.Instance.{mock}
use argo_messaging.Stores.Mock.Projects
use argo_messaging.Stores.Mock.Acl.{append_unique_values, remove_values}
use argo_messaging.Stores.Mock.Acl.Values.{append_unique_values_lem}
use argo_messaging.Stores.Mock.Acl.Removal.{remove_values_lem}
use argo_messaging.Stores.Mock.Paging.{sort_desc, insert_desc}
use argo_messaging.Stores.Mock.Paging.Order.{IsDescending, HasDistinctIds}
use argo_messaging.Stores.Mock.Topics.{may_see_topic}
use argo_messaging.Stores.Mock.Topics.Pages.{topic_pages, visible, topic_pages_lem}
use argo_messaging.Projects.{get_name_by_uuid, remove_project}
use argo_messaging.Projects.Removal.{remove_project_lem, IsRemoval}
use argo_messaging.Schemas.{Lang, extract_schema, format_schema_ref, wrong_reference}
use argo_messaging.Schemas.Reference.{reference, references}
use argo_messaging.Subscriptions.{extract_full_topic_ref}
use argo_messaging.Topics.{has_topic, create_topic}
use argo_messaging.Topics.Creation.{create_topic_lem, IsCreation}
use argo_messaging.Auth.{mod_acl, append_to_acl}
use argo_messaging.Auth.Decisions.{allowed, uuids, acl_changes}
use argo_messaging.Messages.{
  Message, RecMsg, insert_attribute, update_attribute, remove_attribute, get_attribute,
  does_not_exist, total_size, rec_total_size,
}
use argo_messaging.Messages.Attributes.{IsInserted, has, attribute_operations}
use argo_messaging.Messages.Sizes.{data_length, messages_of, total_sizes}
use argo_messaging.Brokers.Kafka.{Client, timeout, message, consume, returned, answers}
use argo_messaging.Brokers.Kafka.Batch.{batch, enough, consume_batch}
use argo_messaging.Handlers.Access.{url_key, Request, is_open, admit}
use argo_messaging.Handlers.Access.Gate.{is_pass, all_names, has_access, admit_lem}
use argo_messaging.Examples.{zulu, store}

-- A client that knows the messages at the offsets 2 to 4 of every topic.
abbrev client : Client
client = record {
  newest = λ t. (pos 5, none);
  oldest = λ t. (pos 2, none);
  consume_partition = λ t offset. none;
  events = λ t offset. message (text "a") ∷ message (text "b") ∷ timeout ∷ [];
  close = λ t offset. none;
}

consume_batch_example : consume client (text "P.t") (pos 3) true (pos 10) ≡ (
    if leb 2 0
    then answers [] none
    else returned none
        (batch (enough true 10 2) (message (text "a") ∷ message (text "b") ∷ timeout ∷ [])))
consume_batch_example =
    consume_batch client (text "P.t") true 10 3 2 2 refl refl refl (omega arith) (omega arith)
      (omega arith) (omega arith)

abbrev request : Request
request = record {
  header = [];
  key = text "S3CR3T";
  url_vars = (text "project", text "ARGO") ∷ [];
  route = text "topics:list";
}

admit_lem_example : is_pass (admit (mock zulu) (text "token") url_key store request) ≡ (
    all_names request.url_vars
    && (is_open request.route || has_access (mock zulu) (text "token") url_key store request))
admit_lem_example = admit_lem (mock zulu) (text "token") url_key store request

sees_two : length (visible (text "P") [] store) < 3
unfolding sort_desc insert_desc may_see_topic text_beq is_empty
sees_two = omega arith

ids_distinct : HasDistinctIds (λ (t : QTopic). t.id) store.topic_list
ids_distinct = (((λ e. absurd (omega (arith, e))), tt), (tt, tt))

topic_pages_lem_example :
    IsDescending (λ (t : QTopic). t.id) (topic_pages 3 (text "P") [] 1 [] store)
    × ((t : QTopic)
        → In t (topic_pages 3 (text "P") [] 1 [] store)
          ↔ (In t store.topic_list × (may_see_topic (text "P") [] store t ≡ true)))
topic_pages_lem_example =
    topic_pages_lem (text "P") [] 1 (omega arith) store 3 ids_distinct
      (omega arith, (omega arith, tt)) sees_two

-- No schema is compiled here.
abbrev pub lang : Lang Unit
lang = record {
  is_empty_object = λ r. true;
  empty_object = tt;
  unmarshal = λ s. none;
  marshal = λ r. none;
  compile_json = λ r. none;
  compile_avro = λ s. none;
  validate_json = λ r s. none;
  validate_avro = λ a s. none;
}

known : is_empty (get_name_by_uuid (mock zulu) (text "P") store) ≡ false
unfolding get_name_by_uuid mock Projects.query_projects find_first is_empty text_beq
known = refl

new_name : is_empty (text "v") ≡ false
unfolding is_empty
new_name = refl

create_topic_lem_example :
    IsCreation zulu lang
      (text "P")
      (text "v")
      new_name
      []
      6
      store
      (has_topic zulu lang (mock zulu) (text "P") (text "v") store).1
      (create_topic zulu lang (mock zulu) (text "P") (text "v") [] 6 store)
create_topic_lem_example =
    create_topic_lem zulu lang (text "P") (text "v") new_name [] 6 store known

uuid_given : is_empty (text "P") ≡ false
unfolding is_empty
uuid_given = refl

remove_project_lem_example :
    IsRemoval zulu (text "P") store (remove_project (mock zulu) (text "P") store)
remove_project_lem_example = remove_project_lem zulu (text "P") store uuid_given

has_acl : store.topics_acl (text "t") ≡ some (record { acl = text "V" ∷ [] })
unfolding text_beq
has_acl = refl

acl_changes_example :
    let changed =
      (mod_acl (mock zulu) (text "P") (text "topics") (text "t") (text "UserA" ∷ []) store).0 in
    let added =
      (append_to_acl
        (mock zulu)
        (text "P")
        (text "topics")
        (text "t")
        (text "UserA" ∷ [])
        store).0 in
    let ids = uuids zulu (text "P") (text "t") (text "UserA" ∷ []) store in
    let may = allowed zulu (text "P") (text "t") (text "UserA" ∷ []) store in
    (may (text "topics") (text "t") (text "U") changed ≡ (
      if text "t" == text "t"
      then contains (text "U") ids
      else may (text "topics") (text "t") (text "U") store))
    × (may (text "topics") (text "t") (text "U") added ≡ (
        may (text "topics") (text "t") (text "U") store
        || (if text "t" == text "t" then contains (text "U") ids else false)))
    × (may (text "subscriptions") (text "t") (text "U") changed
        ≡ may (text "subscriptions") (text "t") (text "U") store)
    × (may (text "subscriptions") (text "t") (text "U") added
        ≡ may (text "subscriptions") (text "t") (text "U") store)
acl_changes_example =
    acl_changes zulu (text "P") (text "t") (text "UserA" ∷ []) store
      (record { acl = text "V" ∷ [] }) has_acl ((λ h. h), tt) (text "t") (text "U")

abbrev names : List Text
names = text "a" ∷ text "b" ∷ []

names-Distinct : Distinct names
names-Distinct = ((λ h. elim h [ inl e ↦ ground arith | inr i ↦ i ]), ((λ h. h), tt))

remove_values_lem_example :
    remove_values names (text "b" ∷ []) ≡ ok (filter (λ x. not (contains x (text "b" ∷ []))) names)
remove_values_lem_example = remove_values_lem names (text "b" ∷ []) names-Distinct

append_unique_values_lem_example :
    Distinct (append_unique_values names (text "c" ∷ []))
    × ((a : Text)
        → In a (append_unique_values names (text "c" ∷ [])) ↔ (In a names ⊎ In a (text "c" ∷ [])))
append_unique_values_lem_example = append_unique_values_lem names (text "c" ∷ []) names-Distinct

valid_names :
    (valid_name (text "ARGO") ≡ true)
    × (valid_name (text "queues") ≡ true)
    × (valid_name (text "q") ≡ true)
unfolding valid_name
valid_names = (refl, refl, refl)

references_example :
    (extract_schema (format_schema_ref (text "ARGO") (text "q")) ≡ ok (text "ARGO", text "q"))
    × (text "queues" == text "schemas" ≡ false
        → extract_schema (reference (text "ARGO") (text "queues") (text "q")) ≡ err wrong_reference)
    × (extract_full_topic_ref (reference (text "ARGO") (text "queues") (text "q"))
        ≡ ok (text "ARGO", text "q"))
references_example =
    references (text "ARGO") (text "queues") (text "q") valid_names.0 valid_names.1 valid_names.2

abbrev a_message : Message
a_message = record {
  id = [];
  attr = some ((text "k", text "v") ∷ []);
  data_ = text "YQ==";
  pub_time = [];
}

attribute_operations_example :
    IsInserted
      (text "k")
      (text "w")
      (text "k")
      a_message
      (insert_attribute (text "k") (text "w") a_message)
    × (is_nil (update_attribute (text "k") (text "w") a_message).1 ≡ has (text "k") a_message)
    × (get_attribute (text "k") (update_attribute (text "k") (text "w") a_message).0 ≡ (
        if has (text "k") a_message && text "k" == text "k"
        then (text "w", none)
        else get_attribute (text "k") a_message))
    × (is_nil (remove_attribute (text "k") a_message).1 ≡ has (text "k") a_message)
    × (get_attribute (text "k") (remove_attribute (text "k") a_message).0 ≡ (
        if has (text "k") a_message && text "k" == text "k"
        then ([], some does_not_exist)
        else get_attribute (text "k") a_message))
attribute_operations_example = attribute_operations (text "k") (text "w") (text "k") a_message

abbrev received : List RecMsg
received = record { ack_id = []; msg = a_message } ∷ []

few_bytes : data_length (messages_of received) < 2 ^ 63
unfolding data_length messages_of
few_bytes = omega arith

total_sizes_example :
    (rec_total_size received ≡ pos (data_length (messages_of received)))
    × (total_size (messages_of received) ≡ pos (data_length (messages_of received)))
total_sizes_example = total_sizes received few_bytes
