-- ===== src/Stores/Mongo/Users.antt =====
-- The users and roles of the store in MongoDB.
use argo_messaging.Base.{
  Text, text, text_eq, Error, Result, ok, err, panic, ◌==◌, Bool, false, ◌&&◌, ◌||◌, not, Option,
  none, some, List, [], ◌∷◌, is_empty, contains, any, filter, if◌then◌else◌,
}
use argo_messaging.Projects.{has_items}
use argo_messaging.Stores.Interface.{UserFields}
use argo_messaging.Stores.Models.{Time, QUser, QRole, is_in_project, get_project_roles}
use argo_messaging.Stores.Mongo.{
  Driver, Mongo, ◌>>=◌, ◌>>◌, pure, query, fatal_error, on_users, inserted,
}

abbrev user_name_exists : Text
user_name_exists = text "invalid user name change, name already exists"

-- The selector of `QueryUsers`.
unfoldable pub user_selector : Text → Text → Text → QUser → Bool
user_selector project_uuid uuid name u =
    let in_project = is_empty project_uuid || is_in_project project_uuid u.projects in
    if not (is_empty uuid)
    then in_project && u.uuid == uuid
    else if not (is_empty name)
    then in_project && u.name == name
    else in_project

abbrev given_text : Text → Text → Text
given_text new old = if is_empty new then old else new

abbrev given : {A : Type 0} → Option A → A → A
given (some new) old = new
given none old = old

-- The user, changed as `UpdateUser` does.
abbrev pub changed_user : UserFields → Time → QUser → QUser
changed_user f modified_on u = record u {
  projects = given f.projects u.projects;
  service_roles = given f.service_roles u.service_roles;
  name = given_text f.name u.name;
  email = given_text f.email u.email;
  first_name = given_text f.first_name u.first_name;
  last_name = given_text f.last_name u.last_name;
  organization = given_text f.organization u.organization;
  description = given_text f.description u.description;
  modified_on = modified_on;
}

abbrev first_user : List QUser → Result QUser
first_user [] = err (text "not found")
first_user (u ∷ us) = ok u

abbrev roles_in : Text → List QUser → List Text × Text
roles_in project_uuid [] = ([], [])
roles_in project_uuid (u ∷ us) = (get_project_roles u project_uuid, u.name)

module _ {C : Type 0 → Type 0} (driver : Driver C) where
  -- `UpdateUserToken`
  unfoldable pub update_user_token : Text → Text → Mongo C Error
  update_user_token uuid token =
      on_users (driver.update (λ u. u.uuid == uuid) (λ u. record u { token = token }))

  -- `AppendToUserProjects`
  unfoldable pub append_to_user_projects : Text → Text → List Text → Mongo C Error
  append_to_user_projects user_uuid project_uuid roles = do
    e ← on_users (
        driver.update (λ u. u.uuid == user_uuid)
          (λ u. record u {
            projects =
                driver.add_to_set u.projects
                  (record { project_uuid = project_uuid; roles = roles } ∷ []);
          }))
    fatal_error e
    pure none

  -- `QueryUsers`
  unfoldable pub query_users : Text → Text → Text → Mongo C (List QUser × Error)
  query_users project_uuid uuid name = do
    results ← query (λ db. driver.all (user_selector project_uuid uuid name) db.users)
    pure (results, none)

  -- Whether the new name is another one and taken.
  user_name_is_taken : Text → QUser → Mongo C Bool
  user_name_is_taken name u =
      if is_empty name || name == u.name
      then pure false
      else (do (same, e) ← query_users [] [] name; pure (has_items same))

  -- `UpdateUser`, after it has found the users with that uuid; `results[0]` panics where there is none.
  unfoldable pub update_found_user : Text → UserFields → Time → List QUser → Mongo C (Result Error)
  unfolding user_name_is_taken
  update_found_user uuid f modified_on [] = pure panic
  update_found_user uuid f modified_on (u ∷ us) = do
    taken ← user_name_is_taken f.name u
    if taken then pure (ok (some user_name_exists)) else (do
      e ← on_users (driver.update (λ v. v.uuid == uuid) (λ _. changed_user f modified_on u))
      pure (ok e))

  -- `UpdateUser`
  unfoldable pub update_user : Text → UserFields → Time → Mongo C (Result Error)
  update_user uuid f modified_on = do
    (results, e) ← query_users [] uuid []
    update_found_user uuid f modified_on results

  -- `HasUsers`: whether all belong to the project, and those that do not.
  unfoldable pub has_users : Text → List Text → Mongo C (Bool × List Text)
  has_users project_uuid users = do
    results ← query (λ db.
        driver.all (λ u. is_in_project project_uuid u.projects && contains u.name users) db.users)
    let missing = filter (λ n. not (any (λ (u : QUser). n == u.name) results)) users
    pure (not (has_items missing), missing)

  -- `HasResourceRoles`
  unfoldable pub has_resource_roles : Text → List Text → Mongo C Bool
  has_resource_roles resource roles = do
    results ← query (λ db.
        driver.all (λ (r : QRole). r.name == resource && any (λ s. contains s roles) r.roles)
          db.roles)
    pure (has_items results)

  -- `GetAllRoles`
  unfoldable pub get_all_roles : Mongo C (List Text)
  get_all_roles = query (λ db. driver.distinct (λ (r : QRole). r.roles) db.roles)

  -- `GetUserRoles`
  unfoldable pub get_user_roles : Text → Text → Mongo C (List Text × Text)
  get_user_roles project_uuid token = do
    results ← query (λ db. driver.all (λ (u : QUser). u.token == token) db.users)
    pure (roles_in project_uuid results)

  -- `GetUserFromToken`
  unfoldable pub get_user_from_token : Text → Mongo C (Result QUser)
  get_user_from_token token = do
    results ← query (λ db. driver.all (λ (u : QUser). u.token == token) db.users)
    pure (first_user results)

  -- `InsertUser`; the caller gives the record.
  unfoldable pub insert_user : QUser → Mongo C Error
  insert_user user = inserted (on_users (driver.insert user))

  -- `RemoveUser`
  unfoldable pub remove_user : Text → Mongo C Error
  remove_user uuid = on_users (driver.remove (λ u. u.uuid == uuid))
