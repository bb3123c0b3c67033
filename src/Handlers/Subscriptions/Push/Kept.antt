-- ===== src/Handlers/Subscriptions/Push/Kept.antt =====
-- The access lists and the projects of users, over the store in memory: a change of them keeps the
-- subscriptions and the projects.
use argo_messaging.Base.{
  Text, text, text_eq, text_beq, Error, List, [], ◌≡◌, refl, is_empty, Result, ok, err, panic,
  Option-cases, Bool-cases, inl, inr,
}
use argo_messaging.Stores.Times.{Zulu}
use argo_messaging.Stores.Mock.State.{Mock}
use argo_messaging.Stores.Mock.Instance.{mock}
use argo_messaging.Stores.Mock.Acl
use argo_messaging.Stores.Mock.Users
use argo_messaging.Stores.Mock.Projects
use argo_messaging.Projects.{get_name_by_uuid}
use argo_messaging.Auth.{remove_from_acl, append_to_acl, append_to_user_projects, invalid_role}

abbrev pub IsKept : Mock → Mock → Type 0
IsKept mk mk' = (mk'.sub_list ≡ mk.sub_list) × (mk'.project_list ≡ mk.project_list)

abbrev pub AllKept : Mock → Result (Mock × Error) → Type 0
AllKept mk (ok (mk', e)) = IsKept mk mk'
AllKept mk (err e) = Unit
AllKept mk panic = Unit

stored_removed :
    (mk : Mock) (r : Result (List Text)) (name : Text)
    → AllKept mk (Acl.store_removed r (λ rest. Acl.set_sub_acl name rest mk))
stored_removed mk (ok acl) name = (refl, refl)
stored_removed mk (err e) name = tt
stored_removed mk panic name = tt

module _ (z : Zulu) (project_uuid name : Text) (mk : Mock) where
  pub remove_from_acl-AllKept :
      (users : List Text)
      → AllKept mk (remove_from_acl (mock z) project_uuid (text "subscriptions") name users mk)
  unfolding remove_from_acl mock Acl.remove_from_acl text_beq
  remove_from_acl-AllKept users = elim (Option-cases (mk.subs_acl name)) [
    | inl e ↦ rw e (refl, refl)
    | inr (q, e) ↦ rw e (stored_removed mk _ name)
  ]

  pub append_to_acl-IsKept :
      (users : List Text)
      → IsKept mk (append_to_acl (mock z) project_uuid (text "subscriptions") name users mk).0
  unfolding append_to_acl mock Acl.append_to_acl text_beq
  append_to_acl-IsKept users = elim (Option-cases (mk.subs_acl name)) [
    | inl e ↦ rw e (refl, refl)
    | inr (q, e) ↦ rw e (refl, refl)
  ]

  pub append_to_user_projects-IsKept :
      (user_uuid : Text)
      → IsKept mk (append_to_user_projects (mock z) user_uuid project_uuid [] mk).0
  unfolding append_to_user_projects mock Users.append_to_user_projects invalid_role
  append_to_user_projects-IsKept user_uuid =
      elim (Bool-cases (is_empty (get_name_by_uuid (mock z) project_uuid mk))) [
        | inl e ↦ rw e (refl, refl)
        | inr e ↦ rw e (refl, refl)
      ]

  pub get_name_by_uuid-kept :
      (mk' : Mock)
      → mk'.project_list ≡ mk.project_list
      → get_name_by_uuid (mock z) project_uuid mk' ≡ get_name_by_uuid (mock z) project_uuid mk
  unfolding get_name_by_uuid mock Projects.query_projects
  get_name_by_uuid-kept mk' h = rw h refl
