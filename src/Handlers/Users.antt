-- ===== src/Handlers/Users.antt =====
-- The handlers of handlers/users.go, as sequences of steps on any store. `UserListAll`, which pages, is
-- left out. The JSON form of a user is an argument, and so are the generated uuid, token and time.
use argo_messaging.Base.{
  Text, text, ◌==◌, text_eq, true, ◌||◌, Option, none, some, List, [], ◌∷◌, is_empty, has_prefix,
  if◌then◌else◌,
}
use argo_messaging.Stores.Models.{Time, QUser}
use argo_messaging.Stores.Times.{Zulu}
use argo_messaging.Stores.Interface.{Store, UserFields}
use argo_messaging.Auth.{get_uuid_by_name, remove_user}
use argo_messaging.Auth.Users.{
  ProjectRoles, User, one, find_users, get_user_by_token, get_user_by_uuid, update_user_token,
  create_user, update_user,
}
use argo_messaging.Handlers.{
  respond_ok, respond_err, written, done, Body, ApiError, unauthorized, invalid_argument,
  invalid_data, not_found, missing_or, conflict, generic_internal, query_datastore, export_json,
}
use argo_messaging.Handlers.Steps.{
  M, ◌>>=◌, ◌>>◌, answer, export, refuse_if, refuse_error, result_or, read_body, call, get,
}

-- A user as a request gives it: a list that is not given is nil. Of the fields, `projects` is not used.
abbrev pub PostedUser : Type 0
PostedUser = UserFields × Option (List ProjectRoles)

-- The elements of a list that may be nil.
abbrev pub listed : {A : Type 0} → Option (List A) → List A
listed none = []
listed (some xs) = xs

-- The token of `GenToken`, whose error the handlers do not test.
abbrev pub token_or_empty : Option Text → Text
token_or_empty none = []
token_or_empty (some token) = token

abbrev pub no_user : ApiError
no_user = not_found (text "User")

-- How the handlers answer an error about the projects and roles of a user, and any other.
abbrev pub bad_user : Text → ApiError
bad_user e =
    if has_prefix e (text "invalid") || has_prefix e (text "duplicate")
    then invalid_data e
    else generic_internal e

abbrev pub creation_error : Text → ApiError
creation_error e = if e == text "exists" then conflict (text "User") else bad_user e

abbrev by_uuid_error : Text → ApiError
by_uuid_error e =
    if e == text "multiple uuids"
    then generic_internal (text "Multiple users found with the same uuid")
    else query_datastore

-- The user that `UserCreate` creates.
unfoldable pub posted_user : Text → Text → UserFields → Text → Option Text → Time → QUser
posted_user url_user ref_user fields uuid token created = record {
  uuid = uuid;
  projects = [];
  name = url_user;
  first_name = fields.first_name;
  last_name = fields.last_name;
  organization = fields.organization;
  description = fields.description;
  token = token_or_empty token;
  email = fields.email;
  service_roles = listed fields.service_roles;
  created_on = created;
  modified_on = created;
  created_by = ref_user;
}

module _ {S : Type 0} (z : Zulu) (store : Store S) (to_json : User → Option Text) where
  -- `UserProfile`
  unfoldable pub user_profile : Text → M S Text (Unit {0})
  user_profile key = do
    refuse_if (is_empty key) unauthorized
    res ← get (get_user_by_token z store key)
    user ← result_or (missing_or unauthorized (λ _. query_datastore)) res
    export (to_json user)

  -- `RefreshToken`
  unfoldable pub refresh_token : Text → Option Text → M S Text (Unit {0})
  refresh_token url_user token = do
    user_uuid ← get (get_uuid_by_name store url_user)
    (user, e) ← call (update_user_token z store user_uuid (token_or_empty token))
    refuse_error (missing_or no_user generic_internal) e
    export (to_json user)

  -- `UserUpdate`
  unfoldable pub user_update : Text → Body PostedUser → Time → M S Text (Unit {0})
  user_update url_user body modified = do
    (fields, projects) ← read_body (invalid_argument (text "User")) body
    user_uuid ← get (get_uuid_by_name store url_user)
    res ← call (update_user z store user_uuid fields projects modified true)
    user ← result_or (missing_or no_user bad_user) res
    export (to_json user)

  -- `UserCreate`
  unfoldable pub user_create :
      Text → Text → Body PostedUser → Text → Option Text → Time → M S Text (Unit {0})
  user_create url_user ref_user body uuid token created = do
    (fields, projects) ← read_body (invalid_argument (text "User")) body
    let user = posted_user url_user ref_user fields uuid token created
    res ← call (create_user z store user (listed projects) created)
    stored ← result_or creation_error res
    export (to_json stored)

  -- `UserListByToken`
  unfoldable pub user_list_by_token : Text → M S Text (Unit {0})
  user_list_by_token url_token = do
    res ← get (get_user_by_token z store url_token)
    user ← result_or (missing_or no_user (λ _. query_datastore)) res
    export (to_json user)

  -- `UserListOne`
  unfoldable pub user_list_one : Text → M S Text (Unit {0})
  user_list_one url_user = do
    (users, e) ← get (find_users z store [] [] url_user true)
    refuse_error (missing_or no_user (λ _. query_datastore)) e
    export (to_json (one users))

  -- The end of `UserListByUUID`, which goes on after an error of the JSON form.
  abbrev export_by_uuid : Option Text → M S Text (Unit {0})
  export_by_uuid none = answer (written (respond_err export_json ∷ respond_ok [] ∷ []))
  export_by_uuid (some json) = answer (done json)

  -- `UserListByUUID`
  unfoldable pub user_list_by_uuid : Text → M S Text (Unit {0})
  user_list_by_uuid url_uuid = do
    res ← get (get_user_by_uuid z store url_uuid)
    user ← result_or (missing_or no_user by_uuid_error) res
    export_by_uuid (to_json user)

-- `UserDelete`
unfoldable pub user_delete : {S : Type 0} → Store S → Text → M S Text (Unit {0})
user_delete store url_user = do
  user_uuid ← get (get_uuid_by_name store url_user)
  e ← call (remove_user store user_uuid)
  refuse_error (missing_or no_user generic_internal) e
  answer (done [])
