-- ===== src/Handlers/Publish/Counters.antt =====
-- What the counting of `TopicPublish` in handlers/topics.go does to the store in memory.
use argo_messaging.Base.{
  ◌*◌, ◌/◌, Text, text_eq, text_beq_refl, nat_eq, Bool, true, Option, none, some, List, [], ◌∷◌,
  ◌++◌, length, find_first, modify_first, ◌≡◌, refl, sym, ap, ◌∙◌, inl, inr, Bool-cases,
  Option-cases, arith,
}
use mathlib.Core.Path.{subst}
use argo_messaging.Base.Int.{pos, add64}
use argo_messaging.Base.Searches.{find_first-passes, find_first-modify_first}
use argo_messaging.Stores.Models.{Rate, Time, QTopic, QDailyTopicMsgCount}
use argo_messaging.Stores.Times.{Zulu}
use argo_messaging.Stores.Mock.State.{Mock, not_found}
use argo_messaging.Stores.Mock.Instance.{mock}
use argo_messaging.Stores.Mock.Topics
use argo_messaging.Stores.Mock.Topics.{is_topic, set_topics, is_daily, or_append}
use argo_messaging.Brokers.{Broker}
use argo_messaging.Messages.{Message, total_size}
use argo_messaging.Schemas.{Lang}
use argo_messaging.Topics.{Topic}
use argo_messaging.Handlers.Publish.{Publisher, day, rate_of, count_published}

abbrev changed : {A : Type 0} → (A → A) → Option A → Option A
changed f none = none
changed f (some x) = some (f x)

module _ {A : Type 0} (p : A → Bool) where
  modify_first-none :
      (f : A → A) (xs : List A) → find_first p xs ≡ none → modify_first p f xs ≡ none
  unfolding find_first modify_first
  modify_first-none f [] e = refl
  modify_first-none f (x ∷ xs) e = elim (Bool-cases (p x)) [
    | inl t ↦ let e' : some x ≡ none = rw t at e in cc
    | inr t ↦ let e' : find_first p xs ≡ none = rw t at e in rw (t, modify_first-none f xs e') refl
  ]

  find_first-snoc :
      (xs : List A) (x : A)
      → find_first p xs ≡ none
      → p x ≡ true
      → find_first p (xs ++ (x ∷ [])) ≡ some x
  unfolding find_first
  find_first-snoc [] x e h = rw h refl
  find_first-snoc (y ∷ ys) x e h = elim (Bool-cases (p y)) [
    | inl t ↦ let e' : some y ≡ none = rw t at e in cc
    | inr t ↦ let e' : find_first p ys ≡ none = rw t at e in rw (t, find_first-snoc ys x e' h) refl
  ]

-- What the counters of a topic become, with messages of a request.
abbrev pub TopicCounted : Publisher → List Message → Option QTopic → Option QTopic → Type 0
TopicCounted c ms none o = o ≡ none
TopicCounted c ms (some t) o =
    (rate : Rate) × (rate.count ≡ pos (length ms))
    × (o
        ≡ some (record t {
          msg_num = add64 t.msg_num (pos (length ms));
          total_bytes = add64 t.total_bytes (total_size ms);
          latest_publish = c.publish_time;
          publish_rate = rate;
        }))

-- The start of the day of the publication.
abbrev pub day_of : Publisher → Time
day_of c = c.publish_time / day * day

-- What the topic's count of a day becomes.
abbrev pub DailyCounted :
    Publisher → List Message → Option QDailyTopicMsgCount → Option QDailyTopicMsgCount → Type 0
DailyCounted c ms none o =
    o
    ≡ some (record {
      date = day_of c;
      project_uuid = c.project_uuid;
      topic_name = c.url_topic;
      number_of_messages = pos (length ms);
    })
DailyCounted c ms (some d) o =
    o ≡ some (record d { number_of_messages = add64 d.number_of_messages (pos (length ms)) })

-- The topic and its count of the day have counted the messages, and nothing but topics and counts of days
-- has changed.
abbrev pub AreCounted : Publisher → List Message → Mock → Mock → Type 0
AreCounted c ms s s' =
    TopicCounted c ms (find_first (is_topic c.project_uuid c.url_topic) s.topic_list)
      (find_first (is_topic c.project_uuid c.url_topic) s'.topic_list)
    × DailyCounted c ms
        (find_first (is_daily c.project_uuid c.url_topic (day_of c)) s.daily_topic_msg_count)
        (find_first (is_daily c.project_uuid c.url_topic (day_of c)) s'.daily_topic_msg_count)
    × (s'
        ≡ record s { topic_list = s'.topic_list; daily_topic_msg_count = s'.daily_topic_msg_count })

module _ (project_uuid name : Text) where
  -- A change of the topic, which keeps its name.
  abbrev Alters : (QTopic → QTopic) → Mock → Mock → Type 0
  Alters f s s' =
      (find_first (is_topic project_uuid name) s'.topic_list
        ≡ changed f (find_first (is_topic project_uuid name) s.topic_list))
      × (s' ≡ record s { topic_list = s'.topic_list })

  set_topics-Alters :
      (f : QTopic → QTopic) (message : Text) (s : Mock)
      → ((t : QTopic) → is_topic project_uuid name (f t) ≡ is_topic project_uuid name t)
      → Alters f s
          (set_topics (modify_first (is_topic project_uuid name) f s.topic_list) message s).0
  set_topics-Alters f message s keeps =
      let p = is_topic project_uuid name in
      elim (Option-cases (find_first p s.topic_list)) [
        | inl e ↦ rw (modify_first-none p f s.topic_list e, e) (refl, refl)
        | inr (t, e) ↦
            let passes = find_first-passes p s.topic_list t e in
            let (ts, changes, found) =
              find_first-modify_first p f s.topic_list t e (keeps t ∙ passes) in
            rw (changes, e) (found, refl)
      ]

module _ (c : Publisher) (ms : List Message) where
  abbrev is_counted : QDailyTopicMsgCount → Bool
  is_counted = is_daily c.project_uuid c.url_topic (day_of c)

  abbrev fresh : QDailyTopicMsgCount
  fresh = record {
    date = day_of c;
    project_uuid = c.project_uuid;
    topic_name = c.url_topic;
    number_of_messages = pos (length ms);
  }

  abbrev count_daily : QDailyTopicMsgCount → QDailyTopicMsgCount
  count_daily d = record d { number_of_messages = add64 d.number_of_messages (pos (length ms)) }

  fresh-is_counted : is_counted fresh ≡ true
  unfolding is_daily
  fresh-is_counted = rw (text_beq_refl c.project_uuid, text_beq_refl c.url_topic) (ground arith)

  counts-DailyCounted :
      (ds : List QDailyTopicMsgCount)
      → DailyCounted c ms
          (find_first is_counted ds)
          (find_first is_counted (or_append (modify_first is_counted count_daily ds) fresh ds))
  unfolding is_daily
  counts-DailyCounted ds = elim (Option-cases (find_first is_counted ds)) [
    | inl e ↦
        rw (e, modify_first-none is_counted count_daily ds e)
          (find_first-snoc is_counted ds fresh e fresh-is_counted)
    | inr (d, e) ↦
        let passes = find_first-passes is_counted ds d e in
        let (ds', changes, found) = find_first-modify_first is_counted count_daily ds d e passes in
        rw (e, changes) found
  ]

  -- The four changes of the topic.
  abbrev count_messages : QTopic → QTopic
  count_messages t = record t { msg_num = add64 t.msg_num (pos (length ms)) }

  abbrev count_bytes : QTopic → QTopic
  count_bytes t = record t { total_bytes = add64 t.total_bytes (total_size ms) }

  abbrev note_publish : QTopic → QTopic
  note_publish t = record t { latest_publish = c.publish_time }

  abbrev note_rate : Rate → QTopic → QTopic
  note_rate rate t = record t { publish_rate = rate }

  changes-TopicCounted :
      (rate : Rate)
      → rate.count ≡ pos (length ms)
      → (o : Option QTopic)
      → TopicCounted c ms o (
          changed
            (note_rate rate)
            (changed note_publish (changed count_bytes (changed count_messages o))))
  changes-TopicCounted rate e none = refl
  changes-TopicCounted rate e (some t) = (rate, e, refl)

  abbrev AltersHere : (QTopic → QTopic) → Mock → Mock → Type 0
  AltersHere = Alters c.project_uuid c.url_topic

  -- The changes one after another, with the count of the day after the first.
  changes-AreCounted :
      (rate : Rate)
      → rate.count ≡ pos (length ms)
      → (s s1 s3 s4 s5 : Mock) → AltersHere count_messages s s1
      → AltersHere count_bytes
          (record s1 {
            daily_topic_msg_count =
                or_append
                  (modify_first is_counted count_daily s1.daily_topic_msg_count)
                  fresh
                  s1.daily_topic_msg_count;
          })
          s3
      → AltersHere note_publish s3 s4
      → AltersHere (note_rate rate) s4 s5
      → AreCounted c ms s s5
  changes-AreCounted rate e s s1 s3 s4 s5 (e1, f1) (e3, f3) (e4, f4) (e5, f5) =
      let days = λ (m : Mock).
        or_append (modify_first is_counted count_daily m.daily_topic_msg_count) fresh
          m.daily_topic_msg_count in
      let topics = s5.topic_list in
      let same : s5 ≡ record s { topic_list = topics; daily_topic_msg_count = days s } =
        f5
        ∙ ap (λ (m : Mock). record m { topic_list = topics }) f4
        ∙ ap (λ (m : Mock). record m { topic_list = topics }) f3
        ∙ ap (λ (m : Mock). record m { topic_list = topics; daily_topic_msg_count = days m }) f1 in
      let counted : s5.daily_topic_msg_count ≡ days s = ap (λ m. m.daily_topic_msg_count) same in
      (
        subst (TopicCounted c ms (find_first (is_topic c.project_uuid c.url_topic) s.topic_list))
            (sym (
              e5
              ∙ ap (changed (note_rate rate))
                  (e4 ∙ ap (changed note_publish) (e3 ∙ ap (changed count_bytes) e1))))
            (changes-TopicCounted rate e _),
        rw counted (counts-DailyCounted s.daily_topic_msg_count),
        same ∙ ap (λ d. record s { topic_list = topics; daily_topic_msg_count = d }) (sym counted),
      )

module _ {Raw B : Type 0} (z : Zulu) (lang : Lang Raw) (to_json : List Text → Option Text)
    (brk : Broker B) (c : Publisher) where
  -- The store in memory counts.
  pub count_published-AreCounted :
      (topic : Topic) (ms : List Message) (s : Mock)
      → AreCounted c ms s (count_published z lang to_json (mock z) brk c topic ms s)
  unfolding count_published mock Topics.increment_topic_msg_num Topics.increment_topic_bytes
      Topics.update_topic_latest_publish Topics.update_topic_publish_rate
      Topics.increment_daily_topic_msg_count is_topic
  count_published-AreCounted topic ms s =
      changes-AreCounted c ms (rate_of c.publish_time topic.latest_publish (pos (length ms))) refl s
        _ _ _ _
        (set_topics-Alters c.project_uuid c.url_topic (count_messages c ms) not_found s (λ t. refl))
        (set_topics-Alters c.project_uuid c.url_topic (count_bytes c ms) not_found _ (λ t. refl))
        (set_topics-Alters c.project_uuid c.url_topic (note_publish c ms) Topics.topic_not_found _
          (λ t. refl))
        (set_topics-Alters c.project_uuid c.url_topic (note_rate c ms _) Topics.topic_not_found _
          (λ t. refl))
