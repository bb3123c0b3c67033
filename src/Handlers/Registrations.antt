-- ===== src/Handlers/Registrations.antt =====
-- The handlers of handlers/registrations.go, as sequences of steps on any store. The JSON forms are
-- arguments, and so are the generated uuids, tokens and times.
pub mod Answered
use argo_messaging.Base.{Text, text, ◌==◌, text_eq, Option, List, [], Result, if◌then◌else◌}
use argo_messaging.Stores.Models.{Time, QUser, QUserRegistration}
use argo_messaging.Stores.Times.{Zulu}
use argo_messaging.Stores.Interface.{Store}
use argo_messaging.Auth.{exists_with_name}
use argo_messaging.Auth.Users.{User, create_user}
use argo_messaging.Auth.Registrations.{
  UserRegistration, register_user, find_user_registration, find_user_registrations,
  update_user_registration,
}
use argo_messaging.Handlers.{
  done, Body, ApiError, invalid_argument, not_found, missing_or, conflict, generic_internal,
}
use argo_messaging.Handlers.Steps.{
  M, ◌>>=◌, ◌>>◌, answer, export, refuse_if, refuse_error, value_or, result_or, read_body, call,
  get,
}
use argo_messaging.Handlers.Users.{token_or_empty}

-- `PendingRegistrationStatus`, `AcceptedRegistrationStatus`, `DeclinedRegistrationStatus`
abbrev pub pending : Text
pending = text "pending"

abbrev pub accepted : Text
accepted = text "accepted"

abbrev pub declined : Text
declined = text "declined"

abbrev pub registration_error : Text → ApiError
registration_error = missing_or (not_found (text "User registration")) generic_internal

abbrev pub accept_error : Text → ApiError
accept_error e = if e == text "exists" then conflict (text "User") else generic_internal e

module _ {S : Type 0} (z : Zulu) (store : Store S) where
  -- `RegisterUser`; of the record of the request, these fields alone are used.
  unfoldable pub register :
      (UserRegistration → Result Text)
      → Body QUserRegistration
      → Text
      → Option Text
      → Time
      → M S Text (Unit {0})
  register to_json body uuid token now = do
    request ← read_body (invalid_argument (text "User")) body
    taken ← get (exists_with_name store request.name)
    refuse_if taken (conflict (text "User"))
    activation_token ← value_or (generic_internal []) token
    let registration = record request {
      uuid = uuid;
      activation_token = activation_token;
      status = pending;
      registered_at = z.format now;
    }
    res ← call (register_user store registration)
    registered ← result_or generic_internal res
    json ← result_or generic_internal (to_json registered)
    answer (done json)

  -- The user that an accepted registration becomes.
  unfoldable pub accepted_user : UserRegistration → Text → Text → Option Text → Time → QUser
  accepted_user r ref_user uuid token created = record {
    uuid = uuid;
    projects = [];
    name = r.name;
    first_name = r.first_name;
    last_name = r.last_name;
    organization = r.organization;
    description = r.description;
    token = token_or_empty token;
    email = r.email;
    service_roles = [];
    created_on = created;
    modified_on = created;
    created_by = ref_user;
  }

  -- `AcceptRegisterUser`, which only logs an error of the last update.
  unfoldable pub accept_register_user :
      (User → Option Text) → Text → Text → Text → Option Text → Time → M S Text (Unit {0})
  accept_register_user to_json reg_uuid ref_user uuid token created = do
    found ← get (find_user_registration store reg_uuid pending)
    r ← result_or registration_error found
    res ← call (create_user z store (accepted_user r ref_user uuid token created) [] created)
    user ← result_or accept_error res
    e ← call (update_user_registration store z reg_uuid accepted ref_user created)
    export (to_json user)

  -- `DeclineRegisterUser`
  unfoldable pub decline_register_user : Text → Text → Time → M S Text (Unit {0})
  decline_register_user reg_uuid ref_user now = do
    found ← get (find_user_registration store reg_uuid pending)
    r ← result_or registration_error found
    e ← call (update_user_registration store z reg_uuid declined ref_user now)
    refuse_error generic_internal e
    answer (done (text "{}"))

  -- `ListOneRegistration`
  unfoldable pub list_one_registration :
      (UserRegistration → Result Text) → Text → M S Text (Unit {0})
  list_one_registration to_json reg_uuid = do
    found ← get (find_user_registration store reg_uuid [])
    r ← result_or registration_error found
    json ← result_or generic_internal (to_json r)
    answer (done json)

  -- `ListAllRegistrations`
  unfoldable pub list_all_registrations :
      (List UserRegistration → Result Text) → Text → Text → Text → Text → Text → M S Text (Unit {0})
  list_all_registrations to_json name status email org activation_token = do
    found ← get (find_user_registrations store status activation_token name email org)
    rs ← result_or generic_internal found
    json ← result_or generic_internal (to_json rs)
    answer (done json)
