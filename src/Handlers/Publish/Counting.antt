-- ===== src/Handlers/Publish/Counting.antt =====
-- The counters of a topic and its publications, over the store in memory.
use argo_messaging.Base.{
  Text, text, text_eq, text_beq_iff, ◌==◌, Error, ◌&&◌, not, Option, none, some, List, [], ◌∷◌,
  ◌++◌, ◌≡◌, refl, sym, ◌∙◌, ap, ◌⊎◌, inl, inr, arith, Bool-cases, Option-cases,
}
use mathlib.Core.List.{append-nil, append_assoc}
use argo_messaging.Base.Int.{pos}
use argo_messaging.Stores.Times.{Zulu}
use argo_messaging.Stores.Mock.State.{Mock}
use argo_messaging.Stores.Mock.Instance.{mock}
use argo_messaging.Brokers.{Broker, Published}
use argo_messaging.Messages.{Message}
use argo_messaging.Schemas.{Lang}
use argo_messaging.Topics.{Topic, find}
use argo_messaging.Auth.{is_publisher, per_resource}
use argo_messaging.Handlers.{Outcome, done, Body, unreadable, malformed, parsed, ApiError}
use argo_messaging.Handlers.Offsets.{broker_topic}
use argo_messaging.Handlers.Publish.Counters.{AreCounted, count_published-AreCounted}
use argo_messaging.Handlers.Publish.{
  Publisher, publish_all, refused, schema_check, after_publish, after_check, with_body, with_topics,
  topic_publish, exported, wrong_topic,
}

module _ {B : Type 0} (brk : Broker B) (t : Text) where
  publish_all-none :
      (m : Message) (ms : List Message) (ids : List Text) (b : B)
      → refused t (brk.publish t m b).1 ≡ none
      → publish_all brk t (m ∷ ms) ids b
        ≡ publish_all brk t ms (ids ++ ((brk.publish t m b).1.msg_id ∷ [])) (brk.publish t m b).0
  unfolding publish_all
  publish_all-none m ms ids b fine =
      let (b', p) = brk.publish t m b in
      ap
        (λ r. elim r [
          | some e ↦ (b', (ids, some e))
          | none ↦ publish_all brk t ms (ids ++ (p.msg_id ∷ [])) b'
        ])
        fine

  publish_all-some :
      (m : Message) (ms : List Message) (ids : List Text) (b : B) (x : ApiError)
      → refused t (brk.publish t m b).1 ≡ some x
      → publish_all brk t (m ∷ ms) ids b ≡ ((brk.publish t m b).0, (ids, some x))
  unfolding publish_all
  publish_all-some m ms ids b x bad =
      let (b', p) = brk.publish t m b in
      ap
        (λ r. elim r [
          | some e ↦ (b', (ids, some e))
          | none ↦ publish_all brk t ms (ids ++ (p.msg_id ∷ [])) b'
        ])
        bad

  publish_all-nil : (ids : List Text) (b : B) → publish_all brk t [] ids b ≡ (b, (ids, none))
  unfolding publish_all
  publish_all-nil ids b = refl

  -- The broker accepted every message, one after another, reported the topic asked for, and gave the ids.
  abbrev pub ArePublished : List Message → B → List Text → B → Type 0
  ArePublished [] b ids b' = (ids ≡ []) × (b' ≡ b)
  ArePublished (m ∷ ms) b ids b' =
      ((brk.publish t m b).1.error ≡ none)
      × ((brk.publish t m b).1.topic ≡ t)
      × ((rest : List Text) × (ids ≡ (brk.publish t m b).1.msg_id ∷ rest)
          × ArePublished ms (brk.publish t m b).0 rest b')

  refused-none : (p : Published) → refused t p ≡ none → (p.error ≡ none) × (p.topic ≡ t)
  refused-none p fine = elim (Option-cases p.error) [
    | inl e ↦ elim (Bool-cases (p.topic == t)) [
      | inl same ↦ (e, (text_beq_iff p.topic t).0 same)
      | inr other ↦ let fine' : some wrong_topic ≡ none = rw (e, other) at fine in cc
    ]
    | inr (x, e) ↦ absurd (ground (arith, e))
  ]

  publish_all-ArePublished :
      (ms : List Message) (ids ids' : List Text) (b b' : B)
      → publish_all brk t ms ids b ≡ (b', (ids', none))
      → (new : List Text) × (ids' ≡ ids ++ new) × ArePublished ms b new b'
  publish_all-ArePublished [] ids ids' b b' e =
      let returned : (b, (ids, none)) ≡ (b', (ids', none)) = sym (publish_all-nil ids b) ∙ e in
      (
        [],
        ap (λ r. r.1.0) (sym returned) ∙ sym (append-nil ids),
        (refl, ap (λ r. r.0) (sym returned)),
      )
  publish_all-ArePublished (m ∷ ms) ids ids' b b' e =
      elim (Option-cases (refused t (brk.publish t m b).1)) [
        | inl fine ↦
            let id = (brk.publish t m b).1.msg_id in
            let (new, more, published) =
              publish_all-ArePublished ms (ids ++ (id ∷ [])) ids' (brk.publish t m b).0 b'
                (sym (publish_all-none m ms ids b fine) ∙ e) in
            let (accepted, topic) = refused-none (brk.publish t m b).1 fine in
            (
              id ∷ new,
              more ∙ append_assoc ids (id ∷ []) new,
              (accepted, topic, (new, refl, published)),
            )
        | inr (x, bad) ↦
            let contradiction : some x ≡ none =
              ap (λ r. r.1.1) (sym (publish_all-some m ms ids b x bad) ∙ e) in
            cc
      ]

module _ {Raw B : Type 0} (z : Zulu) (lang : Lang Raw) (to_json : List Text → Option Text)
    (brk : Broker B) (c : Publisher) where
  -- Nothing is counted, and the answer is an error; or all messages are published and counted.
  abbrev pub IsCounted : Body (List Message) → Mock → B → (Mock × B) × Outcome Text → Type 0
  IsCounted body s b ((s', b'), outcome) =
      ((s' ≡ s) × ((json : Text) → ¬ (outcome ≡ done json)))
      ⊎ ((ms : List Message) × (ids : List Text) × (body ≡ parsed ms)
          × ArePublished brk (broker_topic c.project_uuid c.url_topic) ms b ids b'
          × AreCounted c ms s s'
          × (outcome ≡ exported z lang to_json (mock z) brk c (to_json ids)))

  published :
      (topic : Topic) (ms : List Message) (s : Mock) (b : B) (r : B × (List Text × Option ApiError))
      → publish_all brk (broker_topic c.project_uuid c.url_topic) ms [] b ≡ r
      → IsCounted (parsed ms) s b (after_publish z lang to_json (mock z) brk c topic ms s r)
  published topic ms s b (b', (ids, some e)) run = inl (refl, λ json h. cc)
  published topic ms s b (b', (ids, none)) run =
      let (new, more, published_) =
        publish_all-ArePublished brk (broker_topic c.project_uuid c.url_topic) ms [] ids b b' run in
      inr (
        ms,
        ids,
        refl,
        rw more published_,
        count_published-AreCounted z lang to_json brk c topic ms s,
        refl,
      )

  checked :
      (topic : Topic) (ms : List Message) (r : Option (Option ApiError)) (s : Mock) (b : B)
      → IsCounted (parsed ms) s b (after_check z lang to_json (mock z) brk c topic ms r (s, b))
  checked topic ms none s b = inl (refl, λ json h. cc)
  checked topic ms (some (some e)) s b = inl (refl, λ json h. cc)
  checked topic ms (some none) s b = published topic ms s b _ refl

  with_body-IsCounted :
      (topic : Topic) (body : Body (List Message)) (s : Mock) (b : B)
      → IsCounted body s b (with_body z lang to_json (mock z) brk c topic body (s, b))
  with_body-IsCounted topic unreadable s b = inl (refl, λ json h. cc)
  with_body-IsCounted topic malformed s b = inl (refl, λ json h. cc)
  with_body-IsCounted topic (parsed ms) s b =
      checked topic ms (schema_check z lang to_json (mock z) brk c topic ms s) s b

  with_topics-IsCounted :
      (topics : List Topic) (e : Error) (body : Body (List Message)) (s : Mock) (b : B)
      → IsCounted body s b (with_topics z lang to_json (mock z) brk c topics e body (s, b))
  with_topics-IsCounted topics (some e) body s b = inl (refl, λ json h. cc)
  with_topics-IsCounted [] none body s b = inl (refl, λ json h. cc)
  with_topics-IsCounted (topic ∷ topics) none body s b =
      elim (Bool-cases (
        c.auth_resource
        && is_publisher c.roles
        && not (per_resource (mock z) c.project_uuid (text "topics") c.url_topic c.user_uuid s))) [
          | inl refusal ↦ rw refusal (inl (refl, λ json h. cc))
          | inr let_in ↦ rw let_in (with_body-IsCounted topic body s b)
        ]

  -- On every request, over the store in memory and every broker, one of two things holds of `TopicPublish`.
  -- Either it changes nothing in the store, but for what finding the topic does, and does not answer with
  -- success. Or the broker accepted every message of the request, one after another, and reported the
  -- topic asked for; the answer is the list of the ids it gave, or the error that this is not JSON; the
  -- topic of that name, if there is one, has the number and the size of the messages added to its
  -- counters, with the time of the publication and a rate of that number; its count of the day, from 0
  -- where there was none, has the number added; and nothing else in the store has changed but the lists
  -- of topics and of counts of days.
  pub topic_publish-IsCounted :
      (body : Body (List Message)) (s : Mock) (b : B)
      → IsCounted body
          (find z lang (mock z) c.project_uuid [] c.url_topic [] (pos 0) s).0
          b
          (topic_publish z lang to_json (mock z) brk c body (s, b))
  unfolding topic_publish
  topic_publish-IsCounted body s b = with_topics-IsCounted _ _ body _ b
