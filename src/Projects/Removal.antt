-- ===== src/Projects/Removal.antt =====
-- `RemoveProject` over the store in memory.
use argo_messaging.Base.{
  Text, text_eq, Error, is_nil, ◌==◌, Bool, true, false, ◌&&◌, not, some, List, [], ◌∷◌, filter,
  any, ◌≡◌, refl, if◌then◌else◌, arith, remove_first, Bool-cases, inl, inr, is_empty, find_first,
  option_list,
}
use argo_messaging.Stores.Models.{QTopic, QSub, QProject}
use argo_messaging.Stores.Times.{Zulu}
use argo_messaging.Stores.Mock.State.{Mock}
use argo_messaging.Stores.Mock.Instance.{mock}
use argo_messaging.Stores.Mock.Projects
use argo_messaging.Stores.Mock.Topics
use argo_messaging.Stores.Mock.Subs
use argo_messaging.Projects.{remove_project, exists_with_uuid, has_items}

abbrev pub has_uuid : Text → QProject → Bool
has_uuid uuid p = p.uuid == uuid

abbrev pub topic_in : Text → QTopic → Bool
topic_in uuid t = t.project_uuid == uuid

abbrev pub sub_in : Text → QSub → Bool
sub_in uuid s = s.project_uuid == uuid

found-any :
    (p : QProject → Bool) (ps : List QProject)
    → let (qs, e) = Projects.or_not_found (option_list (find_first p ps)) in
      (has_items qs && is_nil e) ≡ any p ps
unfolding find_first any
found-any p [] = refl
found-any p (x ∷ ps) = ground (arith, found-any p ps)

remove_first-any :
    (p : QProject → Bool) (ps : List QProject)
    → any p ps ≡ true
    → (qs : List QProject) × (remove_first p ps ≡ some qs)
unfolding remove_first any
remove_first-any p [] h = cc
remove_first-any p (x ∷ ps) h = elim (Bool-cases (p x)) [
  | inl e ↦ (ps, rw e refl)
  | inr e ↦ let (qs, r) = remove_first-any p ps (ground arith) in (x ∷ qs, rw (e, r) refl)
]

module _ (z : Zulu) (uuid : Text) (mk : Mock) where
  exists-any :
      is_empty uuid ≡ false
      → exists_with_uuid (mock z) uuid mk ≡ any (has_uuid uuid) mk.project_list
  unfolding exists_with_uuid mock Projects.query_projects is_empty
  exists-any named = rw named (found-any (has_uuid uuid) mk.project_list)

  -- What `RemoveProject` comes to: the state it leaves and its error.
  abbrev pub IsRemoval : Mock × Error → Type 0
  IsRemoval (state, e) =
      let exists = any (has_uuid uuid) mk.project_list in
      let has_topics = any (topic_in uuid) mk.topic_list in
      (is_nil e ≡ (exists && has_topics && any (sub_in uuid) mk.sub_list))
      × (exists ≡ false → state ≡ mk)
      × (exists ≡ true → remove_first (has_uuid uuid) mk.project_list ≡ some state.project_list)
      × (exists ≡ true
          → state ≡ record mk {
            project_list = state.project_list;
            topic_list = state.topic_list;
            sub_list = state.sub_list;
          })
      × (exists ≡ true → state.topic_list ≡ filter (λ t. not (topic_in uuid t)) mk.topic_list)
      × (exists ≡ true
          → state.sub_list
            ≡ (if has_topics then filter (λ s. not (sub_in uuid s)) mk.sub_list else mk.sub_list))

  -- For a uuid that is not empty: `RemoveProject` succeeds exactly if the project is there and has a
  -- topic and a subscription. If the project is there, then the first project of that uuid is removed
  -- from the list of projects and no other; no topic of it is left; of its subscriptions none is left if
  -- it had a topic, and all are left if it had none; and nothing else changes. Without the project nothing
  -- changes.
  pub remove_project_lem : is_empty uuid ≡ false → IsRemoval (remove_project (mock z) uuid mk)
  unfolding remove_project mock Projects.remove_project Topics.remove_project_topics
      Subs.remove_project_subs
  remove_project_lem named =
      rw (exists-any named) (elim (Bool-cases (any (has_uuid uuid) mk.project_list)) [
        | inl there ↦
            let (ps, r) = remove_first-any (has_uuid uuid) mk.project_list there in
            rw (there, r)
              (elim (Bool-cases (any (topic_in uuid) mk.topic_list)) [
                | inl topics ↦ rw topics (elim (Bool-cases (any (sub_in uuid) mk.sub_list)) [
                  | inl subs ↦
                      rw subs (refl, (λ h. cc), (λ h. refl), (λ h. refl), (λ h. refl), λ h. refl)
                  | inr no_subs ↦
                      rw no_subs (refl, (λ h. cc), (λ h. refl), (λ h. refl), (λ h. refl), λ h. refl)
                ])
                | inr no_topics ↦
                    rw no_topics (refl, (λ h. cc), (λ h. refl), (λ h. refl), (λ h. refl), λ h. refl)
              ])
        | inr gone ↦ rw gone (refl, (λ h. refl), (λ h. cc), (λ h. cc), (λ h. cc), λ h. cc)
      ])
