-- ===== src/Stores/Mock/Registrations.antt =====
-- The registrations of users in the store in memory.
use argo_messaging.Base.{
  Text, Error, ◌==◌, text_eq, ◌&&◌, none, List, [], ◌∷◌, ◌++◌, filter, is_empty, modify_all,
  if◌then◌else◌,
}
use argo_messaging.Stores.Models.{QUserRegistration}
use argo_messaging.Stores.Mock.State.{Mock}

-- `RegisterUser`; the caller gives the record.
unfoldable pub register_user : QUserRegistration → Mock → Mock × Error
register_user r mk = (record mk { user_registrations = mk.user_registrations ++ (r ∷ []) }, none)

-- One round of `QueryRegistrations`: those whose field is the value, if a value is given.
unfoldable pub narrow :
    (QUserRegistration → Text) → Text → List QUserRegistration → List QUserRegistration
narrow field value rs = if is_empty value then rs else filter (λ r. field r == value) rs

-- `QueryRegistrations`
unfoldable pub query_registrations :
    Text → Text → Text → Text → Text → Text → Mock → List QUserRegistration × Error
query_registrations reg_uuid status activation_token name email org mk =
    if is_empty reg_uuid
      && is_empty status
      && is_empty activation_token
      && is_empty name
      && is_empty email
      && is_empty org
    then (mk.user_registrations, none)
    else (
      narrow (λ r. r.organization) org
          (narrow (λ r. r.email) email
            (narrow (λ r. r.name) name
              (narrow (λ r. r.activation_token) activation_token
                (narrow (λ r. r.status) status
                  (narrow (λ r. r.uuid) reg_uuid mk.user_registrations))))),
      none,
    )

-- `UpdateRegistration`: every registration with the uuid; that there is none is no error.
unfoldable pub update_registration : Text → Text → Text → Text → Mock → Mock × Error
update_registration reg_uuid status modified_by modified_at mk = (
  record mk {
    user_registrations =
        modify_all (λ (r : QUserRegistration). r.uuid == reg_uuid)
          (λ r. record r {
            status = status;
            modified_by = modified_by;
            modified_at = modified_at;
            activation_token = [];
          })
          mk.user_registrations;
  },
  none,
)
