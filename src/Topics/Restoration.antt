-- ===== src/Topics/Restoration.antt =====
-- `RemoveTopic` after `CreateTopic`, over the store in memory.
use argo_messaging.Base.{
  Text, text, text_beq_refl, text_eq, Bool, true, false, none, some, List, [], ◌∷◌, ◌++◌, any,
  remove_first, ◌≡◌, refl, sym, ◌∙◌, ap, arith, is_empty,
}
use argo_messaging.Stores.Models.{QTopic, Time}
use argo_messaging.Stores.Times.{Zulu}
use argo_messaging.Stores.Mock.State.{Mock, not_found}
use argo_messaging.Stores.Mock.Instance.{mock}
use argo_messaging.Stores.Mock.Topics
use argo_messaging.Projects.{get_name_by_uuid}
use argo_messaging.Schemas.{Lang}
use argo_messaging.Topics.{has_topic, create_topic, remove_topic}
use argo_messaging.Topics.Creation.{
  topic_there, find-named, has_topic-any, inserted, inserted-known, insert_ok, inserted-there,
  inserted-found,
}

-- The last element is removed where it is the only one to pass.
remove_first-new :
    (p : QTopic → Bool) (ts : List QTopic) (t : QTopic)
    → any p ts ≡ false
    → p t ≡ true
    → remove_first p (ts ++ (t ∷ [])) ≡ some ts
unfolding remove_first any
remove_first-new p [] t h e = rw e refl
remove_first-new p (u ∷ ts) t h e = ground (arith, remove_first-new p ts t (ground arith) e)

remove_first-own :
    (project_uuid name : Text) (ts : List QTopic) (t : QTopic)
    → any (Topics.is_topic project_uuid name) ts ≡ false
    → t.project_uuid ≡ project_uuid
    → t.name ≡ name
    → remove_first (Topics.is_topic project_uuid name) (ts ++ (t ∷ [])) ≡ some ts
unfolding Topics.is_topic
remove_first-own project_uuid name ts t h e1 e2 =
    remove_first-new (Topics.is_topic project_uuid name) ts t h
      (rw (e1, e2, text_beq_refl project_uuid, text_beq_refl name) refl)

module _ {Raw : Type 0} (z : Zulu) (lang : Lang Raw) (project_uuid name : Text)
    (named : is_empty name ≡ false) (schema_uuid : Text) (created_on : Time) (mk : Mock)
    (known : is_empty (get_name_by_uuid (mock z) project_uuid mk) ≡ false)
    (new : (has_topic z lang (mock z) project_uuid name mk).1 ≡ false) where
  abbrev new_store : Mock
  new_store = inserted z lang project_uuid name named schema_uuid created_on mk known

  not_there : topic_there z lang project_uuid name named mk ≡ false
  not_there = ap (λ r. r.1) (sym (has_topic-any z lang project_uuid name named mk known)) ∙ new

  known_after : is_empty (get_name_by_uuid (mock z) project_uuid new_store) ≡ false
  known_after =
      rw (inserted-known z lang project_uuid name named schema_uuid created_on mk known) known

  created_store :
      (create_topic z lang (mock z) project_uuid name schema_uuid created_on mk).0 ≡ new_store
  unfolding create_topic
  created_store =
      let (t, f, n) =
        inserted-found z lang project_uuid name named schema_uuid created_on mk known not_there in
      rw
        (
          has_topic-any z lang project_uuid name named mk known,
          not_there,
          insert_ok z lang project_uuid name named schema_uuid created_on mk known,
          find-named z lang project_uuid name named new_store known_after,
          f,
        )
        refl

  removed_store : (mock z).remove_topic project_uuid name new_store ≡ (mk, none)
  unfolding mock Topics.remove_topic Topics.insert_topic
  removed_store =
      ap (λ r. Topics.set_topics r not_found new_store)
        (remove_first-own project_uuid name mk.topic_list _ not_there refl refl)

  -- Where the project has a name, the topic is given one and is not in the project yet: `RemoveTopic`
  -- after `CreateTopic` succeeds, and leaves the store as it was before both. Without the creation it
  -- fails with "not found", and changes nothing.
  pub create_then_remove :
      (remove_topic z lang
          (mock z)
          project_uuid
          name
          (create_topic z lang (mock z) project_uuid name schema_uuid created_on mk).0
        ≡ (mk, none))
      × (remove_topic z lang (mock z) project_uuid name mk ≡ (mk, some (text "not found")))
  unfolding remove_topic
  create_then_remove = (
    rw created_store (
        rw
          (
            has_topic-any z lang project_uuid name named new_store known_after,
            inserted-there z lang project_uuid name named schema_uuid created_on mk known,
          )
          removed_store),
    rw (has_topic-any z lang project_uuid name named mk known, not_there) refl,
  )
