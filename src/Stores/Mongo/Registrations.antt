-- ===== src/Stores/Mongo/Registrations.antt =====
-- The registrations of users in the store in MongoDB.
use argo_messaging.Base.{
  Text, text_eq, Error, ◌==◌, Bool, true, ◌&&◌, none, some, List, [], is_empty, if◌then◌else◌, ◌⊎◌,
  inl, inr,
}
use argo_messaging.Stores.Models.{QUserRegistration}
use argo_messaging.Stores.Mongo.{Driver, Mongo, returned, on_registrations, inserted}

-- A field that is asked for only where a value is given.
abbrev agrees : Text → Text → Bool
agrees value field = if is_empty value then true else field == value

-- The selector of `QueryRegistrations`.
unfoldable pub registration_selector :
    Text → Text → Text → Text → Text → Text → QUserRegistration → Bool
registration_selector reg_uuid status activation_token name email org r =
    agrees reg_uuid r.uuid
    && agrees status r.status
    && agrees activation_token r.activation_token
    && agrees name r.name
    && agrees email r.email
    && agrees org r.organization

abbrev results_or_error : Text ⊎ List QUserRegistration → List QUserRegistration × Error
results_or_error (inr rs) = (rs, none)
results_or_error (inl e) = ([], some e)

module _ {C : Type 0 → Type 0} (driver : Driver C) where
  -- `RegisterUser`; the caller gives the record.
  unfoldable pub register_user : QUserRegistration → Mongo C Error
  register_user r = inserted (on_registrations (driver.insert r))

  -- `QueryRegistrations`: an error is returned here.
  unfoldable pub query_registrations :
      Text → Text → Text → Text → Text → Text → Mongo C (List QUserRegistration × Error)
  query_registrations reg_uuid status activation_token name email org db = returned db (
      results_or_error (
        driver.all (registration_selector reg_uuid status activation_token name email org)
          db.user_registrations))

  -- `UpdateRegistration`
  unfoldable pub update_registration : Text → Text → Text → Text → Mongo C Error
  update_registration reg_uuid status modified_by modified_at = on_registrations (
      driver.update (λ r. r.uuid == reg_uuid)
        (λ r. record r {
          status = status;
          modified_by = modified_by;
          modified_at = modified_at;
          activation_token = [];
        }))
