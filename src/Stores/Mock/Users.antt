-- ===== src/Stores/Mock/Users.antt =====
-- The users and roles of the store in memory.
use argo_messaging.Base.{
  Text, text, Error, Result, ok, err, ◌==◌, text_eq, Bool, true, false, ◌&&◌, not, Option, none,
  some, List, [], ◌∷◌, ◌++◌, is_empty, contains, modify_first, remove_first, find_first,
  option_list, any, filter, if◌then◌else◌,
}
use argo_messaging.Stores.Interface.{UserFields}
use argo_messaging.Stores.Models.{Time, QUser, QRole, is_in_project, get_project_roles}
use argo_messaging.Stores.Mock.State.{Mock, not_found}
use argo_messaging.Stores.Mock.Projects.{or_not_found}

abbrev pub set_users : Option (List QUser) → Mock → Mock × Error
set_users (some us) mk = (record mk { user_list = us }, none)
set_users none mk = (mk, some not_found)

-- `InsertUser`; the model's caller gives the record.
unfoldable pub insert_user : QUser → Mock → Mock × Error
insert_user user mk = (record mk { user_list = mk.user_list ++ (user ∷ []) }, none)

-- `GetAllRoles`
unfoldable pub get_all_roles : Mock → List Text
get_all_roles mk =
    text "service_admin"
    ∷ text "admin"
    ∷ text "project_admin"
    ∷ text "viewer"
    ∷ text "consumer"
    ∷ text "producer"
    ∷ text "publisher"
    ∷ text "push_worker"
    ∷ []

-- `UpdateUserToken`
unfoldable pub update_user_token : Text → Text → Mock → Mock × Error
update_user_token uuid token mk =
    set_users (modify_first (λ u. u.uuid == uuid) (λ u. record u { token = token }) mk.user_list) mk

-- A field that is given, or the one that there is.
abbrev given_text : Text → Text → Text
given_text new old = if is_empty new then old else new

abbrev given : {A : Type 0} → Option A → A → A
given (some new) old = new
given none old = old

abbrev updated : UserFields → Time → QUser → QUser
updated f modified_on u = record u {
  projects = given f.projects u.projects;
  service_roles = given f.service_roles u.service_roles;
  name = given_text f.name u.name;
  email = given_text f.email u.email;
  first_name = given_text f.first_name u.first_name;
  last_name = given_text f.last_name u.last_name;
  organization = given_text f.organization u.organization;
  description = given_text f.description u.description;
  modified_on = modified_on;
}

-- `UpdateUser`
unfoldable pub update_user : Text → UserFields → Time → Mock → Mock × Error
update_user uuid f modified_on mk =
    set_users (modify_first (λ u. u.uuid == uuid) (updated f modified_on) mk.user_list) mk

-- The projects of a user, with one more unless it is there.
abbrev with_project : Text → List Text → QUser → QUser
with_project project_uuid roles u = if is_in_project project_uuid u.projects then u else record u {
  projects = u.projects ++ (record { project_uuid = project_uuid; roles = roles } ∷ []);
}

abbrev users_or_old : Option (List QUser) → List QUser → List QUser
users_or_old (some us) old = us
users_or_old none old = old

-- `AppendToUserProjects`
unfoldable pub append_to_user_projects : Text → Text → List Text → Mock → Mock × Error
append_to_user_projects user_uuid project_uuid roles mk = (
  record mk {
    user_list =
        users_or_old
          (modify_first (λ u. u.uuid == user_uuid) (with_project project_uuid roles) mk.user_list)
          mk.user_list;
  },
  none,
)

-- `HasUsers`: whether all are known, and those that are not.
unfoldable pub has_users : Text → List Text → Mock → Bool × List Text
has_users project_uuid users mk =
    let missing = filter (λ n. not (any (λ (u : QUser). n == u.name) mk.user_list)) users in
    (elim missing [ [] ↦ true | _ ↦ false ], missing)

-- The users that `QueryUsers` selects.
selected_users : Text → Text → Text → List QUser → List QUser
selected_users project_uuid uuid name users =
    if is_empty name && is_empty uuid && is_empty project_uuid
    then users
    else if is_empty name && is_empty uuid && not (is_empty project_uuid)
    then filter (λ u. is_in_project project_uuid u.projects) users
    else if not (is_empty uuid)
    then filter (λ u. u.uuid == uuid) users
    else if not (is_empty name)
    then option_list (find_first (λ u. u.name == name) users)
    else []

-- `QueryUsers`
unfoldable pub query_users : Text → Text → Text → Mock → List QUser × Error
unfolding selected_users
query_users project_uuid uuid name mk =
    or_not_found (selected_users project_uuid uuid name mk.user_list)

-- `RemoveUser`
unfoldable pub remove_user : Text → Mock → Mock × Error
remove_user uuid mk = set_users (remove_first (λ u. u.uuid == uuid) mk.user_list) mk

abbrev user_or_not_found : Option QUser → Result QUser
user_or_not_found (some u) = ok u
user_or_not_found none = err not_found

-- `GetUserFromToken`
unfoldable pub get_user_from_token : Text → Mock → Result QUser
get_user_from_token token mk = user_or_not_found (find_first (λ u. u.token == token) mk.user_list)

abbrev roles_of : Text → Option QUser → List Text × Text
roles_of project_uuid (some u) = (get_project_roles u project_uuid, u.name)
roles_of project_uuid none = ([], [])

-- `GetUserRoles`
unfoldable pub get_user_roles : Text → Text → Mock → List Text × Text
get_user_roles project_uuid token mk =
    roles_of project_uuid (find_first (λ u. u.token == token) mk.user_list)

-- `HasResourceRoles`: some role of the resource is among the given ones.
unfoldable pub has_resource_roles : Text → List Text → Mock → Bool
has_resource_roles resource roles mk =
    any (λ (r : QRole). r.name == resource && any (λ s. contains s roles) r.roles) mk.role_list
