-- ===== src/Auth/Registrations.antt =====
-- The registrations of users in auth/users.go, over any store.
use argo_messaging.Base.{Text, text, Error, Result, ok, err, none, some, List, [], ◌∷◌, map}
use argo_messaging.Stores.Models.{Time, QUserRegistration}
use argo_messaging.Stores.Times.{Zulu}
use argo_messaging.Stores.Interface.{Store}
use argo_messaging.Projects.{user_name_of}

-- `UserRegistration` has the fields of the stored record; `ModifiedBy` is a name in it.
abbrev pub UserRegistration : Type 0
UserRegistration = QUserRegistration

module _ {S : Type 0} (store : Store S) where
  -- A stored registration as it is shown.
  unfoldable pub shown : S → QUserRegistration → UserRegistration
  shown s q = record q { modified_by = user_name_of store q.modified_by s }

  -- `RegisterUser`; of the record, the two fields of a modification are empty.
  unfoldable pub register_user : QUserRegistration → S → S × Result UserRegistration
  register_user r s =
      let (s', e) = store.register_user (record r { modified_by = []; modified_at = [] }) s in
      elim e [
        | some message ↦ (s', err message)
        | none ↦ (s', ok (record r { modified_by = []; modified_at = [] }))
      ]

  abbrev first_shown : List QUserRegistration → S → Result UserRegistration
  first_shown [] s = err (text "not found")
  first_shown (q ∷ qs) s = ok (shown s q)

  -- `FindUserRegistration`
  unfoldable pub find_user_registration : Text → Text → S → Result UserRegistration
  find_user_registration reg_uuid status s =
      let (qs, e) = store.query_registrations reg_uuid status [] [] [] [] s in
      elim e [ some message ↦ err message | none ↦ first_shown qs s ]

  -- `FindUserRegistrations`
  unfoldable pub find_user_registrations :
      Text → Text → Text → Text → Text → S → Result (List UserRegistration)
  find_user_registrations status activation_token name email org s =
      let (qs, e) = store.query_registrations [] status activation_token name email org s in
      elim e [ some message ↦ err message | none ↦ ok (map (shown s) qs) ]

  -- `UpdateUserRegistration`
  unfoldable pub update_user_registration : Zulu → Text → Text → Text → Time → S → S × Error
  update_user_registration z reg_uuid status modified_by modified_at =
      store.update_registration reg_uuid status modified_by (z.format modified_at)
