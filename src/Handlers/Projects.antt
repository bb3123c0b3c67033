-- ===== src/Handlers/Projects.antt =====
-- The handlers of handlers/projects.go, as sequences of steps on any store. `ProjectListUsers`, which
-- pages, is left out. The JSON forms are arguments, and so are the generated uuids, tokens and times.
pub mod Membership
use argo_messaging.Base.{
  Text, text, Error, ◌==◌, text_eq, Bool, true, false, Option, none, some, List, [], ◌∷◌, ◌++◌,
  is_empty, has_prefix, any, find_first, modify_first, remove_first, if◌then◌else◌,
}
use argo_messaging.Stores.Models.{Time, QUser}
use argo_messaging.Stores.Times.{Zulu}
use argo_messaging.Stores.Interface.{Store, UserFields}
use argo_messaging.Projects.{Project, get_name_by_uuid}
use argo_messaging.Projects
use argo_messaging.Auth.{is_service_admin}
use argo_messaging.Auth.Users.{ProjectRoles, User, one, find_users, create_user, update_user}
use argo_messaging.Handlers.{
  done, Body, ApiError, invalid_request_body, invalid_argument, invalid_data, forbidden_with_msg,
  not_found, missing_or, conflict, generic_conflict, generic_internal, query_datastore,
}
use argo_messaging.Handlers.Steps.{
  M, ◌>>=◌, ◌>>◌, answer, export, pure, refuse_if, refuse_error, value_or, result_or, read_body,
  call, get,
}
use argo_messaging.Handlers.Users.{
  PostedUser, listed, token_or_empty, no_user, bad_user, creation_error,
}

abbrev pub no_project : ApiError
no_project = not_found (text "ProjectUUID")

abbrev pub invalid_or_internal : Text → ApiError
invalid_or_internal e = if has_prefix e (text "invalid") then invalid_data e else generic_internal e

abbrev not_member : ApiError
not_member = forbidden_with_msg (text "User is not a member of the project")

abbrev pub all_but_missing : Error → Error
all_but_missing none = none
all_but_missing (some e) = if e == text "not found" then none else some e

-- `auth.ProjectRoles{}`
abbrev no_roles : ProjectRoles
no_roles = record { project = []; roles = []; topics = []; subs = [] }

abbrev found_or_empty : Option ProjectRoles → ProjectRoles
found_or_empty none = no_roles
found_or_empty (some p) = p

-- What a request says of one project: the loop over its projects.
unfoldable pub roles_in : Text → List ProjectRoles → ProjectRoles
roles_in name ps = found_or_empty (find_first (λ (p : ProjectRoles). p.project == name) ps)

-- The same, where the project is added if the request does not name it.
unfoldable pub roles_under : Text → List ProjectRoles → ProjectRoles
roles_under name ps =
    let p = roles_in name ps in if is_empty p.project then record p { project = name } else p

abbrev pub is_member : Text → User → Bool
is_member name u = any (λ (p : ProjectRoles). p.project == name) u.projects

-- The first membership in the project of `given`, with the roles, topics and subscriptions of `given`.
abbrev pub with_roles : ProjectRoles → List ProjectRoles → Option (List ProjectRoles)
with_roles given =
    modify_first (λ (p : ProjectRoles). p.project == given.project)
      (λ (p : ProjectRoles). record given { project = p.project })

-- The fields of a user as the handlers hand them back to `UpdateUser`.
abbrev pub fields_of : User → UserFields
fields_of u = record {
  first_name = u.first_name;
  last_name = u.last_name;
  organization = u.organization;
  description = u.description;
  projects = none;
  name = u.name;
  email = u.email;
  service_roles = some u.service_roles;
}

module _ {S : Type 0} (z : Zulu) (store : Store S) where
  -- `ProjectDelete`
  unfoldable pub project_delete : Text → M S Text (Unit {0})
  project_delete project_uuid = do
    e ← call (Projects.remove_project store project_uuid)
    refuse_error (missing_or no_project generic_internal) e
    answer (done [])

  module _ (to_json : Project → Option Text) where
    -- `ProjectUpdate`
    unfoldable pub project_update : Text → Body Project → Time → M S Text (Unit {0})
    project_update project_uuid body modified = do
      post ← read_body invalid_request_body body
      (project, e) ←
          call (Projects.update_project store z project_uuid post.name post.description modified)
      refuse_error (missing_or no_project invalid_or_internal) e
      export (to_json project)

    -- `ProjectCreate`
    unfoldable pub project_create : Text → Text → Body Project → Text → Time → M S Text (Unit {0})
    project_create url_project ref_user body uuid created = do
      post ← read_body (invalid_argument (text "Project")) body
      (project, e) ←
          call (Projects.create_project store z uuid url_project created ref_user post.description)
      refuse_error
          (λ e. if e == text "exists" then conflict (text "Project") else generic_internal e) e
      export (to_json project)

    -- `ProjectListOne`
    unfoldable pub project_list_one : Text → M S Text (Unit {0})
    project_list_one url_project = do
      (projects, e) ← get (Projects.find store z [] url_project)
      refuse_error (missing_or no_project (λ _. query_datastore)) e
      export (to_json (Projects.one projects))

  -- `ProjectListAll`
  unfoldable pub project_list_all : (List Project → Option Text) → M S Text (Unit {0})
  project_list_all to_json = do
    (projects, e) ← get (Projects.find store z [] [])
    refuse_error (λ _. query_datastore) (all_but_missing e)
    export (to_json projects)

  -- `auth.FindUsers` and what the handlers answer where it fails.
  abbrev found_users : Text → Text → Text → Bool → (Text → ApiError) → M S Text User
  found_users project_uuid uuid name privileged other = do
    (users, e) ← get (find_users z store project_uuid uuid name privileged)
    refuse_error (missing_or no_user other) e
    pure (one users)

  module _ (to_json : User → Option Text) (project_uuid url_user : Text) where
    -- `ProjectUserListOne`
    unfoldable pub project_user_list_one : List Text → M S Text (Unit {0})
    project_user_list_one ref_roles = do
      user ←
          found_users project_uuid [] url_user (is_service_admin ref_roles) (λ _. query_datastore)
      export (to_json user)

    -- The user that `ProjectUserCreate` creates.
    unfoldable pub member_user : Text → UserFields → Text → Option Text → Time → QUser
    member_user ref_user fields uuid token created = record {
      uuid = uuid;
      projects = [];
      name = url_user;
      first_name = [];
      last_name = [];
      organization = [];
      description = [];
      token = token_or_empty token;
      email = fields.email;
      service_roles = [];
      created_on = created;
      modified_on = created;
      created_by = ref_user;
    }

    -- `ProjectUserCreate`
    unfoldable pub project_user_create :
        Text → Body PostedUser → Text → Option Text → Time → M S Text (Unit {0})
    project_user_create ref_user body uuid token created = do
      (fields, projects) ← read_body (invalid_argument (text "User")) body
      name ← get (get_name_by_uuid store project_uuid)
      refuse_if (is_empty name) (generic_internal (text "Internal Error"))
      res ← call (
          create_user z store (member_user ref_user fields uuid token created)
            (roles_under name (listed projects) ∷ []) created)
      user ← result_or creation_error res
      export (to_json user)

    -- `ProjectUserUpdate`
    unfoldable pub project_user_update : List Text → Body PostedUser → Time → M S Text (Unit {0})
    project_user_update ref_roles body modified = do
      name ← get (get_name_by_uuid store project_uuid)
      refuse_if (is_empty name) (generic_internal (text "Internal Error"))
      (fields, projects) ← read_body (invalid_argument (text "User")) body
      u ← found_users [] [] url_user true (λ _. query_datastore)
      memberships ← value_or not_member (with_roles (roles_in name (listed projects)) u.projects)
      res ← call (update_user z store u.uuid (fields_of u) (some memberships) modified false)
      updated ← result_or (missing_or no_user bad_user) res
      stored ←
          found_users project_uuid u.uuid url_user (is_service_admin ref_roles) generic_internal
      export (to_json stored)

    -- `ProjectUserRemove`
    unfoldable pub project_user_remove : Time → M S Text (Unit {0})
    project_user_remove modified = do
      name ← get (get_name_by_uuid store project_uuid)
      u ← found_users [] [] url_user true (λ _. query_datastore)
      memberships ←
          value_or not_member (remove_first (λ (p : ProjectRoles). p.project == name) u.projects)
      res ← call (update_user z store u.uuid (fields_of u) (some memberships) modified false)
      updated ← result_or (missing_or no_user generic_internal) res
      answer (done (text "{}"))

    -- `ProjectUserAdd`
    unfoldable pub project_user_add : List Text → Body ProjectRoles → Time → M S Text (Unit {0})
    project_user_add ref_roles body modified = do
      name ← get (get_name_by_uuid store project_uuid)
      u ← found_users [] [] url_user true (λ _. query_datastore)
      given ← read_body invalid_request_body body
      refuse_if (is_member name u)
          (generic_conflict (text "User is already a member of the project"))
      res ← call (
          update_user z store u.uuid (fields_of u)
            (some (u.projects ++ (record given { project = name } ∷ []))) modified false)
      updated ← result_or (missing_or no_user invalid_or_internal) res
      user ←
          found_users project_uuid [] url_user (is_service_admin ref_roles) (λ _. query_datastore)
      export (to_json user)
