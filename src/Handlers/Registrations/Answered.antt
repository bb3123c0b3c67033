-- ===== src/Handlers/Registrations/Answered.antt =====
-- A registration is answered once, over the store in memory.
use argo_messaging.Base.{
  Text, text, ◌==◌, text_eq, text_beq, Bool, Bool-cases, inl, inr, false, Option, List, [], ◌∷◌,
  ◌++◌, filter, modify_all, is_empty, is_ok, ok, err, ◌≡◌, refl, ap, ◌∙◌,
}
use argo_messaging.Stores.Models.{Time, QUser, QUserRegistration}
use argo_messaging.Stores.Times.{Zulu}
use argo_messaging.Stores.Mock.State.{Mock}
use argo_messaging.Stores.Mock.Instance.{mock}
use argo_messaging.Stores.Mock.Registrations
use argo_messaging.Auth.{invalid_role}
use argo_messaging.Auth.Users.{User, create_user, prepared}
use argo_messaging.Auth.Users.Storing.{create_user-checked, new_record}
use argo_messaging.Auth.Registrations.{
  UserRegistration, find_user_registration, update_user_registration,
}
use argo_messaging.Handlers.{done, fail, not_found, generic_internal}
use argo_messaging.Handlers.Steps.{answer, run}
use argo_messaging.Handlers.Steps.Rules.{
  OnSuccess, result_or-Ensures, refuse_error-Ensures, export-Ensures, run-Ensures,
}
use argo_messaging.Handlers.Registrations.{
  pending, accepted, declined, registration_error, accept_error, accepted_user,
  accept_register_user, decline_register_user,
}

abbrev has_uuid : Text → QUserRegistration → Bool
has_uuid uuid r = r.uuid == uuid

abbrev answered : Text → Text → Text → QUserRegistration → QUserRegistration
answered status by at r = record r {
  status = status;
  modified_by = by;
  modified_at = at;
  activation_token = [];
}

none_pending :
    (uuid status by at : Text)
    → (status == pending) ≡ false
    → (rs : List QUserRegistration)
    → filter
        (λ (r : QUserRegistration). r.status == pending)
        (filter (has_uuid uuid) (modify_all (has_uuid uuid) (answered status by at) rs))
      ≡ []
unfolding modify_all
none_pending uuid status by at other [] = refl
none_pending uuid status by at other (r ∷ rs) = elim (Bool-cases (has_uuid uuid r)) [
  | inl h ↦ rw (h, h, other) (none_pending uuid status by at other rs)
  | inr h ↦ rw (h, h) (none_pending uuid status by at other rs)
]

after_update :
    (z : Zulu) (uuid : Text)
    → is_empty uuid ≡ false
    → (status by : Text) (at : Time) → (status == pending) ≡ false
    → (mk : Mock)
    → find_user_registration
        (mock z)
        uuid
        pending
        (update_user_registration (mock z) z uuid status by at mk).0
      ≡ err (text "not found")
unfolding find_user_registration update_user_registration mock Registrations.query_registrations
    Registrations.update_registration Registrations.narrow is_empty
after_update z [] given status by at other mk = cc
after_update z (c ∷ cs) given status by at other mk =
    rw (none_pending (c ∷ cs) status by (z.format at) other mk.user_registrations) refl

module _ (z : Zulu) (reg_uuid : Text) (given : is_empty reg_uuid ≡ false) where
  -- No registration of the uuid is pending.
  abbrev IsNotPending : Mock → Type 0
  IsNotPending mk = find_user_registration (mock z) reg_uuid pending mk ≡ err (text "not found")

  -- Every request to accept or to decline the registration is answered with "not found", and changes
  -- nothing.
  abbrev pub IsClosed : Mock → Type 0
  IsClosed mk =
      ((to_json : User → Option Text) (by uuid : Text) (token : Option Text) (now : Time)
        → run (accept_register_user z (mock z) to_json reg_uuid by uuid token now) mk
          ≡ (mk, fail (not_found (text "User registration"))))
      × ((by : Text) (now : Time)
          → run (decline_register_user z (mock z) reg_uuid by now) mk
            ≡ (mk, fail (not_found (text "User registration"))))

  closed : (mk : Mock) → IsNotPending mk → IsClosed mk
  unfolding accept_register_user decline_register_user text_beq
  closed mk e = ((λ to_json by uuid token now. rw e refl), λ by now. rw e refl)

  module _ (ref_user : Text) (now : Time) (mk : Mock) where
    -- The registration was pending, its user is the new one in the list, without projects and service
    -- roles, and it is closed.
    abbrev pub IsAccepted : Text → Option Text → Mock → Type 0
    IsAccepted uuid token mk' =
        ((r : UserRegistration) × (find_user_registration (mock z) reg_uuid pending mk ≡ ok r)
          × (mk'.user_list
              ≡ mk.user_list
                ++ (record (accepted_user z (mock z) r ref_user uuid token now) {
                  projects = [];
                  service_roles = [];
                }
                    ∷ [])))
        × IsClosed mk'

    abbrev pub IsDeclined : Mock → Type 0
    IsDeclined mk' =
        ((r : UserRegistration) × (find_user_registration (mock z) reg_uuid pending mk ≡ ok r))
        × (mk'.user_list ≡ mk.user_list)
        × IsClosed mk'

    new_user :
        (q : QUser) (u : User)
        → q.service_roles ≡ []
        → (create_user z (mock z) q [] now mk).1 ≡ ok u
        → (create_user z (mock z) q [] now mk).0
          ≡ record mk { user_list = mk.user_list ++ (new_record z q [] now mk [] ∷ []) }
    unfolding prepared invalid_role
    new_user q u roles e = (create_user-checked z q [] now mk).1 [] (ap is_ok e) (rw roles refl)

    keeps_users :
        (status by : Text) (at : Time) (w : Mock)
        → (update_user_registration (mock z) z reg_uuid status by at w).0.user_list ≡ w.user_list
    unfolding update_user_registration mock Registrations.update_registration
    keeps_users status by at w = refl

    accepts :
        (to_json : User → Option Text) (uuid : Text) (token : Option Text)
        → let (mk', o) =
            run (accept_register_user z (mock z) to_json reg_uuid ref_user uuid token now) mk in
          OnSuccess (IsAccepted uuid token) mk' o
    unfolding accept_register_user text_beq accepted_user
    accepts to_json uuid token =
        let I = IsAccepted uuid token in
        run-Ensures I (accept_register_user z (mock z) to_json reg_uuid ref_user uuid token now)
          (λ _ _. Unit {0}) mk
          (result_or-Ensures I (λ _ _. Unit {0}) registration_error
            (find_user_registration (mock z) reg_uuid pending mk) _ mk
            λ r found.
              let q = accepted_user z (mock z) r ref_user uuid token now in
              let made = create_user z (mock z) q [] now mk in
              result_or-Ensures I (λ _ _. Unit {0}) accept_error made.1 _ _
                λ u e.
                  export-Ensures I (to_json u) (λ _ _. Unit {0}) _
                    (
                      (
                        r,
                        found,
                        keeps_users accepted ref_user now made.0
                            ∙ ap (λ (w : Mock). w.user_list) (new_user q u refl e),
                      ),
                      closed _ (after_update z reg_uuid given accepted ref_user now refl made.0),
                    ))

    declines :
        let (mk', o) = run (decline_register_user z (mock z) reg_uuid ref_user now) mk in
        OnSuccess IsDeclined mk' o
    unfolding decline_register_user text_beq
    declines =
        let I = IsDeclined in
        run-Ensures I (decline_register_user z (mock z) reg_uuid ref_user now) (λ _ _. Unit {0}) mk
          (result_or-Ensures I (λ _ _. Unit {0}) registration_error
            (find_user_registration (mock z) reg_uuid pending mk) _ mk
            λ r found.
              refuse_error-Ensures I (λ _ _. Unit {0}) generic_internal _
                (λ _. answer (done (text "{}"))) _
                λ no_error j e. (
                  (r, found),
                  keeps_users declined ref_user now mk,
                  closed _ (after_update z reg_uuid given declined ref_user now refl mk),
                ))

    -- Over the store in memory, for a registration whose uuid is not empty: where `AcceptRegisterUser`
    -- answers with success, the registration was pending, and the one new user is the registration's,
    -- without projects and without service roles. After it, every request to accept or to decline that
    -- registration is answered with "User registration doesn't exist", and changes nothing.
    pub accept_register_user_lem :
        (to_json : User → Option Text) (uuid : Text) (token : Option Text) (j : Text)
        → (run (accept_register_user z (mock z) to_json reg_uuid ref_user uuid token now) mk).1
          ≡ done j
        → IsAccepted uuid token
            (run (accept_register_user z (mock z) to_json reg_uuid ref_user uuid token now) mk).0
    accept_register_user_lem = accepts

    -- Over the store in memory, for a registration whose uuid is not empty: where `DeclineRegisterUser`
    -- answers with success, the registration was pending, and there is no new user. After it, every
    -- request to accept or to decline that registration is answered with "User registration doesn't
    -- exist", and changes nothing.
    pub decline_register_user_lem :
        (j : Text)
        → (run (decline_register_user z (mock z) reg_uuid ref_user now) mk).1 ≡ done j
        → IsDeclined (run (decline_register_user z (mock z) reg_uuid ref_user now) mk).0
    decline_register_user_lem = declines
