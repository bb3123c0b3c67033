-- ===== src/Topics/Creation.antt =====
-- `HasTopic` and `CreateTopic` over the store in memory.
use argo_messaging.Base.{
  Text, text_eq, Error, length, is_nil, ◌==◌, Bool, true, false, ◌&&◌, not, none, some, List, [],
  ◌∷◌, ◌++◌, any, map, ◌≡◌, refl, ap, ◌∙◌, arith, Bool-cases, inl, inr, is_empty, find_first,
  option_list, text_beq_refl,
}
use argo_messaging.Base.Base64
use argo_messaging.Stores.Models.{QTopic, Time, zero_time}
use argo_messaging.Stores.Times.{Zulu}
use argo_messaging.Stores.Mock.State.{Mock}
use argo_messaging.Stores.Mock.Instance.{mock}
use argo_messaging.Stores.Mock.Topics
use argo_messaging.Stores.Mock.Projects
use argo_messaging.Base.Int.{pos}
use argo_messaging.Projects.{get_name_by_uuid, has_items}
use argo_messaging.Schemas.{Lang}
use argo_messaging.Topics.{
  Topic, has_topic, create_topic, find, find_decoded, found, new_topic, full_topic_name,
}

-- The test of `QueryTopics` for a name, with no user.
abbrev seen : Text → Text → QTopic → Bool
seen project_uuid name t = t.project_uuid == project_uuid && true && t.name == name

module _ (project_uuid name : Text) where
  found-any :
      {B : Type 0} (f : QTopic → B) (ts : List QTopic)
      → (has_items (map f (option_list (find_first (seen project_uuid name) ts))) && true)
        ≡ any (Topics.is_topic project_uuid name) ts
  unfolding find_first any Topics.is_topic
  found-any f [] = refl
  found-any f (t ∷ ts) = ground (arith, found-any f ts)

  -- A new last topic is found where there was none.
  found-new :
      (ts : List QTopic) (t : QTopic)
      → any (Topics.is_topic project_uuid name) ts ≡ false
      → t.project_uuid ≡ project_uuid
      → t.name ≡ name
      → find_first (seen project_uuid name) (ts ++ (t ∷ [])) ≡ some t
  unfolding find_first any Topics.is_topic
  found-new [] t h e1 e2 = rw (e1, e2, text_beq_refl project_uuid, text_beq_refl name) refl
  found-new (u ∷ ts) t h e1 e2 = ground (arith, found-new ts t (ground arith) e1 e2)

  any-new :
      (ts : List QTopic) (t : QTopic)
      → t.project_uuid ≡ project_uuid
      → t.name ≡ name
      → any (Topics.is_topic project_uuid name) (ts ++ (t ∷ [])) ≡ true
  unfolding any Topics.is_topic
  any-new [] t e1 e2 = rw (e1, e2, text_beq_refl project_uuid, text_beq_refl name) refl
  any-new (u ∷ ts) t e1 e2 = ground (arith, any-new ts t e1 e2)

module _ {Raw : Type 0} (z : Zulu) (lang : Lang Raw) (project_uuid name : Text)
    (named : is_empty name ≡ false) where
  abbrev pub topic_there : Mock → Bool
  topic_there mk = any (Topics.is_topic project_uuid name) mk.topic_list

  abbrev pub project_name : Mock → Text
  project_name = get_name_by_uuid (mock z) project_uuid

  -- `Find` for one name.
  pub find-named :
      (mk : Mock)
      → is_empty (project_name mk) ≡ false
      → find z lang (mock z) project_uuid [] name [] (pos 0) mk ≡ (
        mk,
        (
          record {
            topics =
                map
                  (new_topic z lang (mock z) project_uuid (project_name mk) mk)
                  (option_list (find_first (seen project_uuid name) mk.topic_list));
            next_page_token = Base64.encode [];
            total_size = pos 0;
          },
          none,
        ),
      )
  unfolding find find_decoded found mock Topics.query_topics Topics.may_see_topic Base64.decode
      is_empty
  find-named mk known = rw (named, known) refl

  pub has_topic-any :
      (mk : Mock)
      → is_empty (project_name mk) ≡ false
      → has_topic z lang (mock z) project_uuid name mk ≡ (mk, topic_there mk)
  unfolding has_topic
  has_topic-any mk known = rw (find-named mk known) (
      ap (λ b. (mk, b))
        (found-any project_uuid name (new_topic z lang (mock z) project_uuid (project_name mk) mk)
          mk.topic_list))

  -- A topic that nobody has published to yet.
  abbrev pub fresh : Text → Time → Mock → QTopic
  fresh schema_uuid created_on mk = record {
    id = length mk.topic_list;
    project_uuid = project_uuid;
    name = name;
    msg_num = pos 0;
    total_bytes = pos 0;
    latest_publish = zero_time;
    publish_rate = record { count = pos 0; nanoseconds = 0 };
    schema_uuid = schema_uuid;
    created_on = created_on;
    acl = [];
  }

  module _ (schema_uuid : Text) (created_on : Time) (mk : Mock)
      (known : is_empty (project_name mk) ≡ false) where
    abbrev pub inserted : Mock
    inserted = ((mock z).insert_topic project_uuid name schema_uuid created_on mk).0

    pub inserted-known : project_name inserted ≡ project_name mk
    unfolding mock Topics.insert_topic get_name_by_uuid Projects.query_projects
    inserted-known = refl

    pub insert_ok : ((mock z).insert_topic project_uuid name schema_uuid created_on mk).1 ≡ none
    unfolding mock Topics.insert_topic
    insert_ok = refl

    inserted-appends :
        inserted
        ≡ record mk { topic_list = mk.topic_list ++ (fresh schema_uuid created_on mk ∷ []) }
    unfolding mock Topics.insert_topic
    inserted-appends = refl

    pub inserted-there : topic_there inserted ≡ true
    unfolding mock Topics.insert_topic
    inserted-there = any-new project_uuid name mk.topic_list _ refl refl

    -- The topic that is read back.
    pub inserted-found :
        topic_there mk ≡ false
        → (t : QTopic) × (find_first (seen project_uuid name) inserted.topic_list ≡ some t)
          × (t.name ≡ name)
    unfolding mock Topics.insert_topic
    inserted-found new = (_, found-new project_uuid name mk.topic_list _ new refl refl, refl)

  full_name-new_topic :
      (p : Text) (mk : Mock) (t : QTopic)
      → (new_topic z lang (mock z) project_uuid p mk t).full_name ≡ full_topic_name p t.name
  unfolding new_topic
  full_name-new_topic p mk t = refl

  -- What `CreateTopic` comes to, where `there` says whether there was such a topic.
  abbrev pub IsCreation : Text → Time → Mock → Bool → Mock × (Topic × Error) → Type 0
  IsCreation schema_uuid created_on mk there r =
      (is_nil r.1.1 ≡ not there)
      × ((has_topic z lang (mock z) project_uuid name r.0).1 ≡ true)
      × (there ≡ true → r.0 ≡ mk)
      × (there ≡ false
          → r.0
            ≡ record mk { topic_list = mk.topic_list ++ (fresh schema_uuid created_on mk ∷ []) })
      × (there ≡ false
          → r.1.0.full_name ≡ full_topic_name (get_name_by_uuid (mock z) project_uuid mk) name)

  -- Where the project has a name and the topic is given one: `CreateTopic` succeeds exactly if the
  -- project has no topic of that name, and `HasTopic` finds one afterwards in any case. Where it
  -- fails, nothing changes; where it succeeds, it returns the topic with its full name, a topic without
  -- messages stands at the end of the list of topics, and nothing else changes.
  pub create_topic_lem :
      (schema_uuid : Text) (created_on : Time) (mk : Mock)
      → is_empty (get_name_by_uuid (mock z) project_uuid mk) ≡ false
      → IsCreation schema_uuid created_on mk
          (has_topic z lang (mock z) project_uuid name mk).1
          (create_topic z lang (mock z) project_uuid name schema_uuid created_on mk)
  unfolding create_topic
  create_topic_lem schema_uuid created_on mk known =
      let known' : is_empty (project_name (inserted schema_uuid created_on mk known)) ≡ false =
        rw (inserted-known schema_uuid created_on mk known) known in
      elim (Bool-cases (topic_there mk)) [
        | inl there ↦ rw (has_topic-any mk known) (
            rw there (
              refl,
              ap (λ r. r.1) (has_topic-any mk known) ∙ there,
              (λ h. refl),
              (λ h. cc),
              λ h. cc,
            ))
        | inr new ↦
            let (t, f, n) = inserted-found schema_uuid created_on mk known new in
            rw (has_topic-any mk known) (
              rw new (
                rw (insert_ok schema_uuid created_on mk known) (
                  rw (find-named (inserted schema_uuid created_on mk known) known') (
                    rw f (
                      refl,
                      ap (λ r. r.1)
                            (has_topic-any (inserted schema_uuid created_on mk known) known')
                          ∙ inserted-there schema_uuid created_on mk known,
                      (λ h. cc),
                      (λ h. inserted-appends schema_uuid created_on mk known),
                      λ h.
                          full_name-new_topic _ _ t
                          ∙ (ap (λ p. full_topic_name p t.name)
                                (inserted-known schema_uuid created_on mk known)
                              ∙ ap (full_topic_name (project_name mk)) n),
                    )))))
      ]
