-- ===== src/Auth.antt =====
-- auth/users.go and auth/acl.go: roles, access to resources, and access lists, over any store.
pub mod Decisions
pub mod Users
pub mod Registrations
use argo_messaging.Base.{
  Text, text, Error, is_nil, Result, ok, err, panic, ◌==◌, text_eq, Bool, true, false, ◌&&◌, ◌||◌,
  Option, none, some, List, [], ◌∷◌, ◌++◌, map, contains, is_empty, if◌then◌else◌,
}
use argo_messaging.Stores.Models.{QUser, QAcl}
use argo_messaging.Stores.Interface.{Store}
use argo_messaging.Projects.{get_name_by_uuid as project_name_by_uuid, has_items}

-- `IsPublisher`, `IsConsumer`, `IsPushWorker`, `IsProjectAdmin`, `IsServiceAdmin`, `IsAdminViewer`
unfoldable pub is_publisher : List Text → Bool
is_publisher = contains (text "publisher")

unfoldable pub is_consumer : List Text → Bool
is_consumer = contains (text "consumer")

unfoldable pub is_push_worker : List Text → Bool
is_push_worker = contains (text "push_worker")

unfoldable pub is_project_admin : List Text → Bool
is_project_admin = contains (text "project_admin")

unfoldable pub is_service_admin : List Text → Bool
is_service_admin = contains (text "service_admin")

unfoldable pub is_admin_viewer : List Text → Bool
is_admin_viewer = contains (text "admin_viewer")

-- `IsRoleValid`
unfoldable pub is_role_valid : Text → List Text → Bool
is_role_valid = contains

-- The loop of `AreValidUsers` that lists the users that were not found.
list_users : List Text → Text
list_users [] = []
list_users (u ∷ []) = u
list_users (u ∷ v ∷ us) = u ++ (text ", " ++ list_users (v ∷ us))

-- The first result's field, where there is one and no error.
abbrev first_field : (QUser → Text) → List QUser × Error → Text
first_field field ([], e) = []
first_field field (u ∷ us, e) = if is_nil e then field u else []

module _ {S : Type 0} (store : Store S) where
  -- `Authenticate`
  unfoldable pub authenticate : Text → Text → S → List Text × Text
  authenticate = store.get_user_roles

  -- `ExistsWithName`
  unfoldable pub exists_with_name : Text → S → Bool
  exists_with_name name s = let (us, e) = store.query_users [] [] name s in has_items us && is_nil e

  -- `ExistsWithUUID`
  unfoldable pub exists_with_uuid : Text → S → Bool
  exists_with_uuid uuid s = let (us, e) = store.query_users [] uuid [] s in has_items us && is_nil e

  -- `GetNameByUUID`
  unfoldable pub get_name_by_uuid : Text → S → Text
  get_name_by_uuid uuid s = first_field (λ u. u.name) (store.query_users [] uuid [] s)

  -- `GetUUIDByName`
  unfoldable pub get_uuid_by_name : Text → S → Text
  get_uuid_by_name name s = first_field (λ u. u.uuid) (store.query_users [] [] name s)

  -- `RemoveUser`
  unfoldable pub remove_user : Text → S → S × Error
  remove_user = store.remove_user

  -- `AreValidUsers`
  unfoldable pub are_valid_users : Text → List Text → S → Bool × Error
  unfolding list_users
  are_valid_users project_uuid users s =
      let (found, missing) = store.has_users project_uuid users s in
      if found
      then (true, none)
      else (false, some (text "User(s): " ++ (list_users missing ++ text " do not exist")))

  -- `PerResource`
  unfoldable pub per_resource : Text → Text → Text → Text → S → Bool
  per_resource project res_type res_name user_uuid s =
      if res_type == text "topics" || res_type == text "subscriptions"
      then is_nil (store.exists_in_acl project res_type res_name user_uuid s)
      else false

  -- `Authorize`
  unfoldable pub authorize : Text → List Text → S → Bool
  authorize resource roles s =
      if contains (text "_admin_") roles then true else store.has_resource_roles resource roles s

  -- `ModACL`; a name that is not found becomes an empty uuid.
  unfoldable pub mod_acl : Text → Text → Text → List Text → S → S × Error
  mod_acl project_uuid resource_type resource_name acl s =
      store.mod_acl project_uuid resource_type resource_name (map (λ n. get_uuid_by_name n s) acl) s

  -- `AppendToACL`
  unfoldable pub append_to_acl : Text → Text → Text → List Text → S → S × Error
  append_to_acl project_uuid resource_type resource_name acl s =
      store.append_to_acl project_uuid resource_type resource_name
        (map (λ n. get_uuid_by_name n s) acl) s

  -- `RemoveFromACL`
  unfoldable pub remove_from_acl : Text → Text → Text → List Text → S → Result (S × Error)
  remove_from_acl project_uuid resource_type resource_name acl s =
      store.remove_from_acl project_uuid resource_type resource_name
        (map (λ n. get_uuid_by_name n s) acl) s

  -- The loop of `GetACL`: users that are gone are skipped.
  names_of : List Text → S → List Text
  names_of [] s = []
  names_of (u ∷ us) s =
      let rest = names_of us s in
      let name = get_name_by_uuid u s in if is_empty name then rest else name ∷ rest

  -- `GetACL`
  unfoldable pub get_acl : Text → Text → Text → S → Result (List Text)
  unfolding names_of
  get_acl project_uuid resource_type resource_name s =
      elim (store.query_acl project_uuid resource_type resource_name s) [
        | ok q ↦ ok (names_of q.acl s)
        | err e ↦ err e
        | panic ↦ panic
      ]

  -- The loop over the roles of `AppendToUserProjects`: the first invalid one.
  unfoldable pub invalid_role : List Text → List Text → Option Text
  invalid_role valid [] = none
  invalid_role valid (r ∷ rs) =
      let rest = invalid_role valid rs in if is_role_valid r valid then rest else some r

  -- `AppendToUserProjects`
  unfoldable pub append_to_user_projects : Text → Text → List Text → S → S × Error
  unfolding invalid_role
  append_to_user_projects user_uuid project_uuid roles s =
      if is_empty (project_name_by_uuid store project_uuid s)
      then (s, some (text "invalid project " ++ project_uuid))
      else elim (invalid_role (store.get_all_roles s) roles) [
        | some r ↦ (s, some (text "invalid role " ++ r))
        | none ↦ store.append_to_user_projects user_uuid project_uuid roles s
      ]
