-- ===== src/Examples/Subscribers.antt =====
-- Examples on subscriptions: pulls, acknowledgements and offsets.
use argo_messaging.Base.{
  ℕ, ◌*◌, ◌/◌, All, In, ◌↔◌, ◌⊎◌, is_nil, ◌&&◌, ◌==◌, Text, text, text_eq, text_beq, split, any,
  is_empty, find_first, ok, Option, none, some, List, [], ◌∷◌, ◌≡◌, refl, true, false, arith, inl,
  inr, not,
}
use argo_messaging.Base.Base64
use argo_messaging.Base.Int.{ℤ, pos, add64, wrap64, ◌+ℤ◌, ◌≤ℤ◌, ◌<ℤ◌, leb_ℤ, int_eq}
use argo_messaging.Base.Decimal.{format_int, parse_int}
use argo_messaging.Validation.{valid_name, valid_ack_id}
use argo_messaging.Stores.Models.{QSub}
use argo_messaging.Stores.Times.{second, elapsed_seconds}
use argo_messaging.Stores.Interface.{PushFields}
use argo_messaging.Stores.Mock.Instance.{mock}
use argo_messaging.Stores.Mock.Subs
use argo_messaging.Stores.Mock.Subs.Query
use argo_messaging.Stores.Mock.Projects
use argo_messaging.Stores.Mock.Subs.Acknowledgement.{count, pull_then_update_sub_offset_ack}
use argo_messaging.Messages.{Message, RecMsg}
use argo_messaging.Brokers.{Broker}
use argo_messaging.Projects.{get_name_by_uuid}
use argo_messaging.Subscriptions.{
  Subscription, PaginatedSubscriptions, new_subscription, is_empty_push_config,
}
use argo_messaging.Subscriptions.Operations.{find}
use argo_messaging.Subscriptions.AckId.{get_max_ack_id, ack_id, ack_prefix, get_offset_from_ack_id}
use argo_messaging.Subscriptions.AckId.RoundTrip.{ack_id_round_trip}
use argo_messaging.Subscriptions.AckId.Maximum.{IsMaximum, OffsetAtMost, get_max_ack_id_of_valid}
use argo_messaging.Handlers.{AnswersOnce, parsed, done}
use argo_messaging.Handlers.Ack.{Target, sub_ack, acknowledged}
use argo_messaging.Handlers.Ack.Maximum.{sub_ack-AnswersOnce, sub_ack_maximum}
use argo_messaging.Handlers.Pull.{
  received, received_msg, PullOptions, Json, Context, refusal, consumed, max_messages, limit_of,
  count_metrics, sub_pull,
}
use argo_messaging.Examples.Others.{lang}
use argo_messaging.Topics
use argo_messaging.Handlers.Offsets.{broker_topic}
use argo_messaging.Handlers.Pull.Ids.{ids_of}
use argo_messaging.Handlers.Pull.Acknowledgement.{pull_then_ack}
use argo_messaging.Handlers.Offsets.{Offsets, exported, sub_set_offset, sub_get_offsets}
use argo_messaging.Handlers.Offsets.Bounds.{sub_set_offset_any, sub_get_offsets_current}
use argo_messaging.Examples.{zulu, sub, store}

abbrev target : Target
target = record { project_uuid = text "P"; project = text "ARGO"; subscription = text "s" }

abbrev first_id : Text
first_id = text "projects/ARGO/subscriptions/s:1"

abbrev second_id : Text
second_id = text "projects/ARGO/subscriptions/s:2"

names_ok : (valid_name (text "ARGO") ≡ true) × (valid_name (text "s") ≡ true)
unfolding valid_name
names_ok = (refl, refl)

ack_id_round_trip_example :
    (valid_ack_id (text "ARGO") (text "s") (ack_id (text "ARGO") (text "s") (pos 7)) ≡ true)
    × (get_offset_from_ack_id (ack_id (text "ARGO") (text "s") (pos 7)) ≡ ok (pos 7))
ack_id_round_trip_example =
    ack_id_round_trip (text "ARGO") (text "s") (pos 7) names_ok.0 names_ok.1
      (omega arith, omega arith)

ids_ok :
    (valid_ack_id (text "ARGO") (text "s") first_id ≡ true)
    × (valid_ack_id (text "ARGO") (text "s") second_id ≡ true)
unfolding valid_ack_id parse_int split text_beq
ids_ok = (refl, refl)

offsets_ok : get_offset_from_ack_id second_id ≡ ok (pos 2)
unfolding get_offset_from_ack_id parse_int split
offsets_ok = refl

abbrev both : List Text
both = first_id ∷ second_id ∷ []

get_max_ack_id_of_valid_example :
    (k : ℤ) × (m : Text) × (get_max_ack_id both ≡ ok m) × IsMaximum both (pos 0) [] k m
get_max_ack_id_of_valid_example =
    get_max_ack_id_of_valid (text "ARGO") (text "s") both (ids_ok.0, (ids_ok.1, tt))

sub_ack-AnswersOnce_example :
    AnswersOnce (sub_ack zulu (mock zulu) 5 target (parsed (some both)) store).1
sub_ack-AnswersOnce_example =
    sub_ack-AnswersOnce zulu (mock zulu) 5 target (parsed (some both)) store

abbrev found_sub : Subscription
found_sub = new_subscription zulu (text "ARGO") sub

abbrev found_page : PaginatedSubscriptions
found_page = record { subscriptions = found_sub ∷ []; next_page_token = []; total_size = pos 0 }

finds :
    find zulu (mock zulu) (text "P") [] (text "s") [] (pos 0) store ≡ (store, (found_page, none))
unfolding find mock Query.query_subs Query.may_see_sub Projects.query_projects get_name_by_uuid
    find_first Base64.decode Base64.encode is_empty text_beq
finds = refl

good_ids : any (λ a. not (valid_ack_id (text "ARGO") (text "s") a)) both ≡ false
unfolding any valid_ack_id parse_int split text_beq
good_ids = refl

sub_ack_maximum_example :
    (k : ℤ) × All (OffsetAtMost k) both
    × ((m : Text) × In m both × (get_offset_from_ack_id m ≡ ok k))
    × (sub_ack zulu (mock zulu) 5 target (parsed (some both)) store
        ≡ acknowledged (
            (mock zulu).update_sub_offset_ack
              (text "P")
              (text "s")
              (add64 k (pos 1))
              (zulu.format 5)
              store))
sub_ack_maximum_example =
    sub_ack_maximum zulu (mock zulu) 5 target both store store found_sub [] found_page finds refl
      good_ids second_id 2 (inr (inl refl)) offsets_ok

abbrev a_message : Message
a_message = record { id = []; attr = none; data_ = text "YQ=="; pub_time = [] }

abbrev loads : Text → Option Message
loads json = some a_message

abbrev handed : ℕ → RecMsg
handed n = received_msg (ack_prefix (text "ARGO") (text "s")) (pos n) a_message

-- A broker whose topics keep the messages from offset 2 to offset 9.
abbrev pub broker : Broker Unit
broker = record {
  get_min_offset = λ topic b. pos 2;
  get_max_offset = λ topic b. pos 9;
  consume = λ topic offset imm max b. (b, ([], none));
  publish = λ topic m b. (b, record { msg_id = text "9"; topic = topic; error = none });
}

-- A broker that gives two messages.
abbrev giving : Broker Unit
giving = record broker { consume = λ topic offset imm max b. (b, (text "m" ∷ text "n" ∷ [], none)) }

abbrev options : PullOptions
options = record { ret_imm = text "true"; max_msg = [] }

abbrev json : Json
json = record { load_msg = loads; export_list = λ recs. some (text "out") }

abbrev context : Context
context = record {
  project_uuid = text "P";
  url_project = text "ARGO";
  url_sub = text "s";
  user_uuid = text "U";
  roles = text "consumer" ∷ [];
  auth_resource = false;
  push_enabled = false;
  consume_time = 1;
  pull_time = 2;
}

let_in : refusal zulu lang json (mock zulu) giving context found_sub store ≡ none
unfolding refusal is_empty_push_config is_empty text_beq new_subscription
let_in = refl

topic_there : Topics.has_topic zulu lang (mock zulu) (text "P") (text "t") store ≡ (store, true)
unfolding Topics.has_topic Topics.find Base64.decode mock
    argo_messaging.Stores.Mock.Topics.query_topics is_empty get_name_by_uuid Projects.query_projects
    find_first text_beq argo_messaging.Stores.Mock.Topics.may_see_topic
topic_there = refl

consumes :
    consumed zulu lang json
      (mock zulu)
      giving
      context
      (broker_topic (text "P") (text "t"))
      (not (text "true" == text "false"))
      (max_messages options)
      found_sub
      (store, tt)
    ≡ ((store, tt), (pos 0, (text "m" ∷ text "n" ∷ [], none)))
unfolding consumed new_subscription
consumes = refl

receives :
    received loads
      (ack_prefix (text "ARGO") (text "s"))
      (pos 0)
      (limit_of options)
      (pos 0)
      (text "m" ∷ text "n" ∷ [])
    ≡ some (handed 0 ∷ handed 1 ∷ [])
unfolding received add64 wrap64 ◌+ℤ◌ limit_of parse_int
receives = refl

pull_then_ack_example :
    let recs = handed 0 ∷ handed 1 ∷ [] in
    let counted =
      count_metrics zulu lang json (mock zulu) giving context found_sub (pos 2) recs store in
    (sub_pull zulu lang json (mock zulu) giving context (parsed options) (store, tt) ≡ (
      (((mock zulu).update_sub_pull (text "P") (text "s") (pos 2) (zulu.format 2) counted).0, tt),
      done (text "out"),
    ))
    × (sub_ack zulu (mock zulu) 5 target (parsed (some (ids_of recs))) store
        ≡ acknowledged
            ((mock zulu).update_sub_offset_ack (text "P") (text "s") (pos 2) (zulu.format 5) store))
unfolding new_subscription
pull_then_ack_example =
    pull_then_ack zulu lang json (mock zulu) giving context names_ok.0 names_ok.1 options 0
      (text "m" ∷ text "n" ∷ []) (handed 0) (handed 1 ∷ []) (text "out") store store store store tt
      tt found_page found_sub [] (omega arith) finds refl let_in topic_there consumes receives refl
      5 store store found_page found_sub [] finds refl

sub_set_offset_any_example :
    ((sub_set_offset zulu (mock zulu) broker (text "P") (text "s") (parsed (pos 12)) tt store).0
      ≡ (mock zulu).update_sub_offset (text "P") (text "s") (pos 12) store)
    × (AnswersOnce
          (sub_set_offset zulu
            (mock zulu)
            broker
            (text "P")
            (text "s")
            (parsed (pos 12))
            tt
            store).1
        ↔ ((pos 2 ≤ℤ pos 12) × (pos 12 ≤ℤ pos 9)))
sub_set_offset_any_example =
    sub_set_offset_any zulu (mock zulu) broker (text "P") (text "s") tt store store found_sub []
      found_page finds refl (pos 12)

abbrev shows : Offsets → Option Text
shows o = some (format_int o.current)

sub_get_offsets_current_example :
    let (state, outcome) =
      sub_get_offsets zulu (mock zulu) broker (text "P") (text "s") shows tt store in
    (c : ℤ) × (outcome ≡ exported (shows (record { max = pos 9; min = pos 2; current = c })))
    × (pos 2 ≤ℤ c)
    × (pos 0 ≤ℤ c)
    × ((c ≡ pos 2) ⊎ (c ≡ pos 0))
    × (pos 0 <ℤ pos 2 → state ≡ (mock zulu).update_sub_offset (text "P") (text "s") (pos 2) store)
    × (pos 2 ≤ℤ pos 0 → state ≡ store)
unfolding new_subscription
sub_get_offsets_current_example =
    sub_get_offsets_current zulu (mock zulu) broker (text "P") (text "s") tt store store found_sub
      [] found_page finds refl shows

abbrev push : PushFields
push = record {
  push_endpoint = [];
  max_messages = pos 1;
  authorization_type = [];
  authorization_header = [];
  ret_policy = [];
  ret_period = pos 0;
  verification_hash = [];
  verified = false;
}

one_sub : count (Subs.is_sub (text "P") (text "s")) store.sub_list ≡ 1
unfolding count Subs.is_sub text_beq
one_sub = refl

pull_then_update_sub_offset_ack_example :
    (s : QSub) × (Subs.find_last (Subs.is_sub (text "P") (text "s")) none store.sub_list ≡ some s)
    × (is_nil
          (Subs.update_sub_offset_ack zulu
            (text "P")
            (text "s")
            (pos 3)
            (zulu.format 9000000000)
            (Subs.update_sub_pull (text "P") (text "s") (pos 4) (zulu.format 7000000000) store).0).1
        ≡ (not (pos 4 == pos 0)
            && leb_ℤ s.offset (pos 3)
            && leb_ℤ (pos 3) (pos 4)
            && leb_ℤ
                (elapsed_seconds (9000000000 / second * second) (7000000000 / second * second))
                s.ack))
pull_then_update_sub_offset_ack_example =
    pull_then_update_sub_offset_ack zulu (text "P") (text "s") store one_sub (pos 4) (pos 3)
      7000000000 9000000000 (omega arith) (omega arith)
