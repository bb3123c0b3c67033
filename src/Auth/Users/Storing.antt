-- ===== src/Auth/Users/Storing.antt =====
-- What `CreateUser` stores, over the store in memory.
use argo_messaging.Base.{
  Text, text, text_eq, Option, text_beq_refl, Error, is_nil, Result, ok, err, panic, is_ok, ◌==◌,
  Bool, true, false, ◌&&◌, ◌||◌, not, none, some, List, [], ◌∷◌, ◌++◌, map, is_empty, find_first,
  any, option_list, ◌≡◌, refl, ◌∙◌, inl, inr, Bool-cases, arith, Distinct, All, In, ◌↔◌, sym,
}
use argo_messaging.Stores.Models.{Time, QUser, QProjectRoles}
use argo_messaging.Stores.Times.{Zulu}
use argo_messaging.Stores.Interface.{Store}
use argo_messaging.Stores.Mock.State.{Mock}
use argo_messaging.Stores.Mock.Instance.{mock}
use argo_messaging.Stores.Mock.Users
use argo_messaging.Stores.Mock.Projects.{or_not_found}
use argo_messaging.Projects.{has_items}
use argo_messaging.Auth.{exists_with_name, invalid_role}
use argo_messaging.Auth.Users.Creation.{
  named, names, IsKnown, entry, prepared-IsFine, invalid_role-none,
}
use argo_messaging.Auth.Users.{
  User, ProjectRoles, full_user, prepared, checked, insert_checked, stored_user, find_users,
  create_user,
}

-- A user of the name, or any user where the name is empty.
abbrev pub has_name : Text → QUser → Bool
has_name name u = is_empty name || u.name == name

find_first-any :
    (p : QUser → Bool) (us : List QUser) → has_items (option_list (find_first p us)) ≡ any p us
unfolding find_first any
find_first-any p [] = refl
find_first-any p (u ∷ us) = ground (arith, find_first-any p us)

items-or_not_found :
    {A : Type 0} (xs : List A)
    → (has_items (or_not_found xs).0 ≡ has_items xs) × (is_nil (or_not_found xs).1 ≡ has_items xs)
items-or_not_found [] = (refl, refl)
items-or_not_found (x ∷ xs) = (refl, refl)

any_user : (us : List QUser) → has_items us ≡ any (has_name []) us
unfolding any is_empty
any_user [] = refl
any_user (u ∷ us) = refl

none_of_nil : (e : Error) → is_nil e ≡ true → e ≡ none
none_of_nil none h = refl
none_of_nil (some m) h = cc

-- What the store's error decides, once a user is stored.
reads_back :
    (u : User) (e : Error) (mk : Mock)
    → e ≡ none
    → let r : Mock × Result User = elim e [ some m ↦ (mk, err m) | none ↦ (mk, ok u) ] in
      (is_ok r.1 ≡ true) × (r.0 ≡ mk)
reads_back u none mk h = (refl, refl)
reads_back u (some m) mk h = cc

-- Both parts of a conjunction, the first negated.
and_parts : {a b : Bool} → (not a && b) ≡ true → (a ≡ false) × (b ≡ true)
and_parts {a = true} h = cc
and_parts {a = false} h = (refl, h)

is_ok-ok : {A : Type 0} {r : Result A} → is_ok r ≡ true → (x : A) × (r ≡ ok x)
is_ok-ok {r = ok x} h = (x, refl)
is_ok-ok {r = err e} h = cc
is_ok-ok {r = panic} h = cc

lacks_none : (ns : List Text) → All (λ n. ¬ In n []) ns
lacks_none [] = tt
lacks_none (n ∷ ns) = ((λ i. i), lacks_none ns)

-- The check of the service roles lets a list through exactly if all are valid.
checked-ok :
    {S : Type 0} (z : Zulu) (store : Store S) (known roles : List Text)
    (r : Result (List QProjectRoles)) (ps : List QProjectRoles)
    → (checked z store known roles r ≡ ok ps)
      ↔ ((invalid_role store known roles ≡ none) × (r ≡ ok ps))
checked-ok z store known roles (err e) ps = ((λ h. cc), λ h. cc)
checked-ok z store known roles panic ps = ((λ h. cc), λ h. cc)
checked-ok z store known roles (ok qs) ps = of_refusal (invalid_role store known roles)
  where
    of_refusal :
        (o : Option Text)
        → ((elim o [ some r ↦ err (text "invalid role: " ++ r) | none ↦ ok qs ]) ≡ ok ps)
          ↔ ((o ≡ none) × (ok qs ≡ ok ps))
    of_refusal none = ((λ h. (refl, h)), λ h. h.1)
    of_refusal (some x) = ((λ h. cc), λ h. cc)

module _ (z : Zulu) where
  -- `QueryUsers` by a name, as a test on the list.
  query_users-by_name :
      (name : Text) (mk : Mock)
      → (has_items ((mock z).query_users [] [] name mk).0 ≡ any (has_name name) mk.user_list)
        × (is_nil ((mock z).query_users [] [] name mk).1 ≡ any (has_name name) mk.user_list)
  unfolding mock Users.query_users is_empty
  query_users-by_name [] mk =
      let (items, e) = items-or_not_found mk.user_list in
      (items ∙ any_user mk.user_list, e ∙ any_user mk.user_list)
  query_users-by_name (c ∷ cs) mk =
      let all = find_first-any (has_name (c ∷ cs)) mk.user_list in
      let (items, e) =
        items-or_not_found (option_list (find_first (has_name (c ∷ cs)) mk.user_list)) in
      (items ∙ all, e ∙ all)

  any-snoc :
      (name : Text) (us : List QUser) (u : QUser)
      → u.name ≡ name
      → any (has_name name) (us ++ (u ∷ [])) ≡ true
  unfolding any is_empty
  any-snoc name [] u e = rw (e, text_beq_refl name) (ground arith)
  any-snoc name (v ∷ us) u e = ground (arith, any-snoc name us u e)

  any-map : {A B : Type 0} (f : A → B) (xs : List A) → has_items (map f xs) ≡ has_items xs
  any-map f [] = refl
  any-map f (x ∷ xs) = refl

  module _ (name : Text) (mk : Mock) where
    -- A user that is in the store is found.
    stored_user-found :
        any (has_name name) mk.user_list ≡ true → (stored_user z (mock z) [] name mk).1 ≡ none
    unfolding find_users
    stored_user-found there =
        let (items, e) = query_users-by_name name mk in
        let found : has_items (map (full_user z (mock z) mk) ((mock z).query_users [] [] name mk).0)
            ≡ true =
          any-map (full_user z (mock z) mk) _ ∙ (items ∙ there) in
        rw found (none_of_nil _ (e ∙ there))

    exists_with_name-any : exists_with_name (mock z) name mk ≡ any (has_name name) mk.user_list
    unfolding exists_with_name
    exists_with_name-any =
        let (items, e) = query_users-by_name name mk in rw (items, e) (ground arith)

  module _ (q : QUser) (projects : List ProjectRoles) (now : Time) (mk : Mock) where
    -- The record that is stored with the projects `ps`.
    abbrev pub new_record : List QProjectRoles → QUser
    new_record ps = record q { projects = ps; created_on = now; modified_on = now }

    abbrev pub valid : List Text
    valid = (mock z).get_all_roles mk

    abbrev IsStored : Result (List QProjectRoles) → Mock × Bool → Type 0
    IsStored (ok ps) (mk', b) =
        (b ≡ true) × (mk' ≡ record mk { user_list = mk.user_list ++ (new_record ps ∷ []) })
    IsStored _ (mk', b) = (b ≡ false) × (mk' ≡ mk)

    insert_checked-IsStored :
        (r : Result (List QProjectRoles))
        → let (mk', u) = insert_checked z (mock z) new_record q.name r mk in
          IsStored r (mk', is_ok u)
    unfolding mock Users.insert_user
    insert_checked-IsStored (ok ps) = reads_back _ _ _ (
        stored_user-found q.name (record mk { user_list = mk.user_list ++ (new_record ps ∷ []) })
          (any-snoc q.name mk.user_list (new_record ps) refl))
    insert_checked-IsStored (err e) = (refl, refl)
    insert_checked-IsStored panic = (refl, refl)

    of_stored :
        (r : Result (List QProjectRoles)) (mk' : Mock) (b : Bool)
        → IsStored r (mk', b)
        → (b ≡ is_ok r)
          × ((ps : List QProjectRoles)
              → b ≡ true
              → r ≡ ok ps
              → mk' ≡ record mk { user_list = mk.user_list ++ (new_record ps ∷ []) })
          × (b ≡ false → mk' ≡ mk)
    of_stored (ok ps) mk' b (done, same) =
        (done, (λ ps' h e. let e' : ps ≡ ps' = cc in rw (← e') same), λ h. cc)
    of_stored (err e) mk' b (failed, same) = (failed, (λ ps h e. cc), λ h. same)
    of_stored panic mk' b (failed, same) = (failed, (λ ps h e. cc), λ h. same)

    -- What `CreateUser` makes of the checks that it runs.
    pub create_user-checked :
        let (mk', r) = create_user z (mock z) q projects now mk in
        let accepted =
          checked z (mock z) valid q.service_roles (prepared z (mock z) valid [] projects mk) in
        (is_ok r ≡ (not (any (has_name q.name) mk.user_list) && is_ok accepted))
        × ((ps : List QProjectRoles)
            → is_ok r ≡ true
            → accepted ≡ ok ps
            → mk' ≡ record mk { user_list = mk.user_list ++ (new_record ps ∷ []) })
        × (is_ok r ≡ false → mk' ≡ mk)
    unfolding create_user
    create_user-checked = elim (Bool-cases (any (has_name q.name) mk.user_list)) [
      | inl old ↦ rw (exists_with_name-any q.name mk, old) (refl, (λ ps h e. cc), λ h. refl)
      | inr new ↦
          rw (exists_with_name-any q.name mk, new) (of_stored _ _ _ (insert_checked-IsStored _))
    ]

    -- The name is free, the projects that are named are different and in the store, and all roles are
    -- valid.
    abbrev pub IsAcceptable : Type 0
    IsAcceptable =
        (any (has_name q.name) mk.user_list ≡ false)
        × Distinct (names projects)
        × All (IsKnown z (mock z) mk valid) (named projects)
        × All (λ r. In r valid) q.service_roles

    abbrev pub IsUserCreated : Mock × Result User → Type 0
    IsUserCreated (mk', r) =
        ((is_ok r ≡ true) ↔ IsAcceptable)
        × (is_ok r ≡ true
            → mk' ≡ record mk {
              user_list =
                  mk.user_list
                  ++ (new_record (map (entry z (mock z) mk valid) (named projects)) ∷ []);
            })
        × (is_ok r ≡ false → mk' ≡ mk)

    -- Over the store in memory, `CreateUser` answers with success exactly if no user has the name yet
    -- (where the name is empty, if there is no user at all), no two entries name one project, each
    -- project that is named is in the store, and each role of those entries and each service role is
    -- among the roles of the store. Then the new user, with the uuids and the roles of the entries that
    -- name a project, stands at the end of the list of users, and nothing else has changed; otherwise
    -- nothing has changed.
    pub create_user_lem : IsUserCreated (create_user z (mock z) q projects now mk)
    create_user_lem =
        let (succeeds, stores, fails) = create_user-checked in
        let (to, from) =
          prepared-IsFine z (mock z) mk valid [] projects
            (map (entry z (mock z) mk valid) (named projects)) in
        (
          (
            (λ h.
                let (free, accepted) = and_parts (sym succeeds ∙ h) in
                let (ps, is_ps) = is_ok-ok accepted in
                let (roles, made) = (checked-ok z (mock z) valid q.service_roles _ ps).0 is_ps in
                let fine = (prepared-IsFine z (mock z) mk valid [] projects ps).0 made in
                (
                  free,
                  fine.0,
                  fine.2,
                  (invalid_role-none z (mock z) mk valid q.service_roles).0 roles,
                )),
            λ h.
                succeeds
                ∙ rw
                    (
                      h.0,
                      (checked-ok z (mock z) valid q.service_roles _ _).1 (
                        (invalid_role-none z (mock z) mk valid q.service_roles).1 h.3,
                        from (h.1, lacks_none (names projects), h.2, refl),
                      ),
                    )
                    refl,
          ),
          (λ h.
              let (free, accepted) = and_parts (sym succeeds ∙ h) in
              let (ps, is_ps) = is_ok-ok accepted in
              let (roles, made) = (checked-ok z (mock z) valid q.service_roles _ ps).0 is_ps in
              let fine = (prepared-IsFine z (mock z) mk valid [] projects ps).0 made in
              rw (← fine.3) (stores ps h is_ps)),
          fails,
        )
