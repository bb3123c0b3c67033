-- ===== src/Handlers/Projects/Membership.antt =====
-- Whom `ProjectUserCreate` creates, over the store in memory.
use argo_messaging.Base.{
  Text, text, ◌==◌, text_eq, text_beq_iff, Bool, Bool-cases, inl, inr, true, false, ◌&&◌, Option,
  Option-cases, List, [], ◌∷◌, ◌++◌, map, find_first, is_empty, is_ok, Result, ok, err, panic, ◌≡◌,
  refl, ap, sym, ◌∙◌,
}
use argo_messaging.Base.Searches.{find_first-passes}
use argo_messaging.Stores.Models.{Time, QUser, QProjectRoles}
use argo_messaging.Stores.Times.{Zulu}
use argo_messaging.Stores.Mock.State.{Mock}
use argo_messaging.Stores.Mock.Instance.{mock}
use argo_messaging.Projects.{get_name_by_uuid, get_uuid_by_name}
use argo_messaging.Auth.{invalid_role}
use argo_messaging.Auth.Users.{User, ProjectRoles, create_user, prepared, checked}
use argo_messaging.Auth.Users.Creation.{prepared-IsFine, entry, named}
use argo_messaging.Auth.Users.Storing.{create_user-checked, new_record, valid}
use argo_messaging.Handlers.{Body, done, invalid_argument, generic_internal}
use argo_messaging.Handlers.Steps.{run}
use argo_messaging.Handlers.Steps.Rules.{
  read_body-Ensures, refuse_if-Ensures, result_or-Ensures, export-Ensures, run-Ensures,
}
use argo_messaging.Handlers.Users.{PostedUser, listed, creation_error}
use argo_messaging.Handlers.Projects.{roles_in, roles_under, member_user, project_user_create}

-- The entry of a request for a project is for that project.
roles_under-project : (name : Text) (ps : List ProjectRoles) → (roles_under name ps).project ≡ name
unfolding roles_under roles_in is_empty
roles_under-project name ps =
    elim (Option-cases (find_first (λ (p : ProjectRoles). p.project == name) ps)) [
      | inl missing ↦ rw missing refl
      | inr (p, found) ↦
          let same : p.project ≡ name =
            (text_beq_iff p.project name).0
              (find_first-passes (λ (p : ProjectRoles). p.project == name) ps p found) in
          elim (Bool-cases (is_empty p.project)) [
            | inl e ↦ rw (found, e) refl
            | inr e ↦ rw (found, e) same
          ]
    ]

is_ok-ok : {A : Type 0} (r : Result A) → is_ok r ≡ true → (a : A) × (r ≡ ok a)
is_ok-ok (ok a) h = (a, refl)
is_ok-ok (err e) h = cc
is_ok-ok panic h = cc

and_right : (a b : Bool) → a && b ≡ true → b ≡ true
and_right true b h = h
and_right false b h = cc

checked-no_roles :
    (z : Zulu) (mk : Mock) (valid roles : List Text)
    → roles ≡ []
    → (r : Result (List QProjectRoles)) → checked z (mock z) valid roles r ≡ r
unfolding invalid_role
checked-no_roles z mk valid roles e (ok ps) = rw e refl
checked-no_roles z mk valid roles e (err m) = refl
checked-no_roles z mk valid roles e panic = refl

module _ (z : Zulu) (project_uuid url_user ref_user uuid : Text) (token : Option Text) (now : Time)
    (mk : Mock) where
  abbrev project_name : Text
  project_name = get_name_by_uuid (mock z) project_uuid mk

  -- One user is new: of that name, without service roles, with one project, that of the request.
  abbrev pub IsConfined : Mock → Type 0
  IsConfined mk' =
      (q : QUser) × (mk' ≡ record mk { user_list = mk.user_list ++ (q ∷ []) })
      × (q.name ≡ url_user)
      × (q.service_roles ≡ [])
      × ((roles : List Text) × (q.projects
            ≡ record { project_uuid = project_uuid; roles = roles } ∷ []))

  -- What `prepared` makes of the one project.
  one_entry :
      (valid : List Text) (p : ProjectRoles) (ps : List QProjectRoles)
      → p.project ≡ project_name
      → is_empty project_name ≡ false
      → get_uuid_by_name (mock z) project_name mk ≡ project_uuid
      → prepared z (mock z) valid [] (p ∷ []) mk ≡ ok ps
      → ps ≡ record { project_uuid = project_uuid; roles = p.roles } ∷ []
  one_entry valid p ps same there own e =
      let fine = (prepared-IsFine z (mock z) mk valid [] (p ∷ []) ps).0 e in
      let h : is_empty p.project ≡ false = rw same there in
      let named_one : named (p ∷ []) ≡ p ∷ [] = rw h refl in
      fine.3
      ∙ (ap (map (entry z (mock z) mk valid)) named_one
          ∙ ap (λ u. record { project_uuid = u; roles = p.roles } ∷ [])
              (ap (λ n. get_uuid_by_name (mock z) n mk) same ∙ own))

  -- What `CreateUser` does with it.
  confined :
      (q : QUser) (p : ProjectRoles) (u : User)
      → q.name ≡ url_user
      → q.service_roles ≡ []
      → p.project ≡ project_name
      → is_empty project_name ≡ false
      → get_uuid_by_name (mock z) project_name mk ≡ project_uuid
      → (create_user z (mock z) q (p ∷ []) now mk).1 ≡ ok u
      → IsConfined (create_user z (mock z) q (p ∷ []) now mk).0
  confined q p u name roles same there own e =
      let (succeeds, stores, fails) = create_user-checked z q (p ∷ []) now mk in
      let r = prepared z (mock z) (valid z q [] now mk) [] (p ∷ []) mk in
      let same_r : checked z (mock z) (valid z q [] now mk) q.service_roles r ≡ r =
        checked-no_roles z mk (valid z q [] now mk) q.service_roles roles r in
      let made : is_ok (create_user z (mock z) q (p ∷ []) now mk).1 ≡ true = ap is_ok e in
      let (ps, entries) =
        is_ok-ok r (ap is_ok (sym same_r) ∙ and_right _ _ (sym succeeds ∙ made)) in
      (
        new_record z q [] now mk ps,
        stores ps made (same_r ∙ entries),
        name,
        roles,
        (p.roles, one_entry (valid z q [] now mk) p ps same there own entries),
      )

  module _ (to_json : User → Option Text) (body : Body PostedUser) where
    -- Over the store in memory, if no other project has the name of the request's project: where
    -- `ProjectUserCreate` answers with success, it has added one user, of the name in the URL, who has
    -- no service roles and is a member of the request's project alone, whatever projects and roles
    -- the request asks for; and nothing else has changed.
    pub project_user_create-IsConfined :
        (own : get_uuid_by_name (mock z) project_name mk ≡ project_uuid) (j : Text)
        → (run
            (project_user_create z
              (mock z)
              to_json
              project_uuid
              url_user
              ref_user
              body
              uuid
              token
              now)
            mk).1
          ≡ done j
        → IsConfined
            (run
              (project_user_create z
                (mock z)
                to_json
                project_uuid
                url_user
                ref_user
                body
                uuid
                token
                now)
              mk).0
    unfolding project_user_create member_user
    project_user_create-IsConfined own =
        let I = IsConfined in
        run-Ensures I
          (project_user_create z (mock z) to_json project_uuid url_user ref_user body uuid token
            now)
          (λ _ _. Unit {0}) mk
          (read_body-Ensures I (λ _ _. Unit {0}) (invalid_argument (text "User")) body _ mk
            λ post read.
              refuse_if-Ensures I (λ _ _. Unit {0}) (is_empty project_name)
                (generic_internal (text "Internal Error")) _ mk
                λ there.
                  let q =
                    member_user z (mock z) to_json project_uuid url_user ref_user post.0 uuid token
                      now in
                  let p = roles_under project_name (listed post.1) in
                  result_or-Ensures I (λ _ _. Unit {0}) creation_error
                    (create_user z (mock z) q (p ∷ []) now mk).1 _ _
                    λ u e.
                      export-Ensures I (to_json u) (λ _ _. Unit {0}) _
                        (confined q p u refl refl (roles_under-project project_name (listed post.1))
                          there own e))
