-- ===== src/Examples/Members.antt =====
-- Examples on the requests that create users.
use argo_messaging.Base.{
  Text, text, text_eq, text_beq, contains, Option, none, some, [], ◌∷◌, is_empty, find_first,
  modify_all, ◌≡◌, refl, false,
}
use argo_messaging.Stores.Models.{QUserRegistration}
use argo_messaging.Stores.Mock.State.{Mock}
use argo_messaging.Stores.Mock.Instance.{mock}
use argo_messaging.Stores.Mock.Projects
use argo_messaging.Stores.Mock.Registrations
use argo_messaging.Stores.Mock.Users
use argo_messaging.Projects.{get_name_by_uuid, get_uuid_by_name}
use argo_messaging.Auth.{exists_with_name, invalid_role, is_role_valid}
use argo_messaging.Auth.Users.{
  User, create_user, find_users, full_user, new_user, one, prepared, take_project,
}
use argo_messaging.Auth.Registrations.{find_user_registration, shown, update_user_registration}
use argo_messaging.Handlers.{Body, parsed, done}
use argo_messaging.Handlers.Steps.{run}
use argo_messaging.Handlers.Users.{PostedUser}
use argo_messaging.Handlers.Projects.{project_user_create, roles_under, roles_in, member_user}
use argo_messaging.Handlers.Projects.Membership.{IsConfined, project_user_create-IsConfined}
use argo_messaging.Handlers.Registrations.{
  accept_register_user, accepted_user, decline_register_user,
}
use argo_messaging.Handlers.Registrations.Answered.{
  IsAccepted, IsDeclined, accept_register_user_lem, decline_register_user_lem,
}
use argo_messaging.Examples.{zulu, store}

abbrev name_json : User → Option Text
name_json u = some u.name

-- A request that asks for a service role and for two projects.
abbrev request : Body PostedUser
request = parsed (
  record {
    first_name = [];
    last_name = [];
    organization = [];
    description = [];
    projects = none;
    name = [];
    email = text "e";
    service_roles = some (text "service_admin" ∷ []);
  },
  some (
      record { project = text "OTHER"; roles = text "project_admin" ∷ []; topics = []; subs = [] }
      ∷ record { project = text "ARGO"; roles = text "consumer" ∷ []; topics = []; subs = [] }
      ∷ []),
)

own : get_uuid_by_name (mock zulu) (get_name_by_uuid (mock zulu) (text "P") store) store ≡ text "P"
unfolding get_uuid_by_name get_name_by_uuid mock Projects.query_projects find_first text_beq
    is_empty
own = refl

created :
    (run
      (project_user_create zulu
        (mock zulu)
        name_json
        (text "P")
        (text "n")
        (text "U")
        request
        (text "W")
        (some (text "T"))
        5)
      store).1
    ≡ done (text "n")
unfolding project_user_create create_user exists_with_name find_users mock Projects.query_projects
    Users.query_users Users.insert_user Users.get_all_roles find_first text_beq is_empty contains
    get_uuid_by_name get_name_by_uuid prepared take_project invalid_role is_role_valid roles_under
    roles_in member_user one full_user new_user
created = refl

project_user_create-IsConfined_example :
    IsConfined zulu
      (text "P")
      (text "n")
      (text "U")
      (text "W")
      (some (text "T"))
      5
      store
      (run
        (project_user_create zulu
          (mock zulu)
          name_json
          (text "P")
          (text "n")
          (text "U")
          request
          (text "W")
          (some (text "T"))
          5)
        store).0
project_user_create-IsConfined_example =
    project_user_create-IsConfined zulu (text "P") (text "n") (text "U") (text "W")
      (some (text "T")) 5 store name_json request own (text "n") created

abbrev registration : QUserRegistration
registration = record {
  uuid = text "R";
  name = text "n";
  first_name = [];
  last_name = [];
  organization = [];
  description = [];
  email = text "e";
  activation_token = text "A";
  status = text "pending";
  registered_at = text "1";
  modified_by = [];
  modified_at = [];
}

abbrev registering : Mock
registering = record store { user_registrations = registration ∷ [] }

-- The registration is accepted.
accepted_at_first :
    (run
      (accept_register_user zulu
        (mock zulu)
        name_json
        (text "R")
        (text "U")
        (text "W")
        (some (text "T"))
        5)
      registering).1
    ≡ done (text "n")
unfolding accept_register_user find_user_registration mock Registrations.query_registrations
    Registrations.narrow text_beq is_empty create_user exists_with_name find_users Users.query_users
    Users.insert_user Users.get_all_roles find_first prepared invalid_role one full_user new_user
    accepted_user shown
accepted_at_first = refl

given : is_empty (text "R") ≡ false
unfolding is_empty
given = refl

accept_register_user_lem_example :
    IsAccepted zulu
      (text "R")
      given
      (text "U")
      5
      registering
      (text "W")
      (some (text "T"))
      (run
        (accept_register_user zulu
          (mock zulu)
          name_json
          (text "R")
          (text "U")
          (text "W")
          (some (text "T"))
          5)
        registering).0
accept_register_user_lem_example =
    accept_register_user_lem zulu (text "R") given (text "U") 5 registering name_json (text "W")
      (some (text "T")) (text "n") accepted_at_first

declined_at_first :
    (run (decline_register_user zulu (mock zulu) (text "R") (text "U") 5) registering).1
    ≡ done (text "{}")
unfolding decline_register_user find_user_registration mock Registrations.query_registrations
    Registrations.narrow text_beq is_empty shown update_user_registration
    Registrations.update_registration modify_all
declined_at_first = refl

decline_register_user_lem_example :
    IsDeclined zulu
      (text "R")
      given
      (text "U")
      5
      registering
      (run (decline_register_user zulu (mock zulu) (text "R") (text "U") 5) registering).0
decline_register_user_lem_example =
    decline_register_user_lem zulu (text "R") given (text "U") 5 registering (text "{}")
      declined_at_first
