-- ===== src/Auth/Users.antt =====
-- The users of auth/users.go, over any store: how they are shown, created and updated. An argument that
-- Go lets be nil is an option.
pub mod Creation
pub mod Storing
use argo_messaging.Base.{
  Text, text, Error, is_nil, Result, ok, err, panic, ◌==◌, text_eq, Bool, true, false, ◌&&◌, ◌||◌,
  not, Option, none, some, List, [], ◌∷◌, ◌++◌, map, filter, contains, is_empty, if◌then◌else◌,
}
use argo_messaging.Stores.Models.{Time, QUser, QProjectRoles, QTopic, QSub}
use argo_messaging.Stores.Times.{Zulu}
use argo_messaging.Stores.Interface.{Store, UserFields}
use argo_messaging.Projects.{get_uuid_by_name, user_name_of, has_items}
use argo_messaging.Projects.{get_name_by_uuid as project_name_by_uuid}
use argo_messaging.Auth.{exists_with_name, invalid_role}

pub record ProjectRoles : Type 0 where
  pub project : Text
  pub roles : List Text
  pub topics : List Text
  pub subs : List Text

pub record User : Type 0 where
  pub uuid : Text
  pub projects : List ProjectRoles
  pub name : Text
  pub first_name : Text
  pub last_name : Text
  pub organization : Text
  pub description : Text
  pub token : Text
  pub email : Text
  pub service_roles : List Text
  pub created_on : Text
  pub modified_on : Text
  pub created_by : Text

-- `User{}`
abbrev pub empty_user : User
empty_user = record {
  uuid = [];
  projects = [];
  name = [];
  first_name = [];
  last_name = [];
  organization = [];
  description = [];
  token = [];
  email = [];
  service_roles = [];
  created_on = [];
  modified_on = [];
  created_by = [];
}

-- `NewUser` on a stored user, with the fields that its callers choose.
unfoldable pub new_user : Zulu → List ProjectRoles → Text → List Text → Text → QUser → User
new_user z projects token service_roles created_by q = record {
  uuid = q.uuid;
  projects = projects;
  name = q.name;
  first_name = q.first_name;
  last_name = q.last_name;
  organization = q.organization;
  description = q.description;
  token = token;
  email = q.email;
  service_roles = service_roles;
  created_on = z.format q.created_on;
  modified_on = z.format q.modified_on;
  created_by = created_by;
}

-- `One`
unfoldable pub one : List User → User
one [] = empty_user
one (u ∷ us) = u

module _ {S : Type 0} (z : Zulu) (store : Store S) where
  -- A project of a user, with the topics and subscriptions whose access lists name the user.
  unfoldable pub project_roles : Text → S → QProjectRoles → ProjectRoles
  project_roles user_uuid s p = record {
    project = project_name_by_uuid store p.project_uuid s;
    roles = p.roles;
    topics = map (λ (t : QTopic). t.name) (store.query_topics_by_acl p.project_uuid user_uuid s).0;
    subs = map (λ (q : QSub). q.name) (store.query_subs_by_acl p.project_uuid user_uuid s).0;
  }

  -- What a privileged caller sees of a user.
  unfoldable pub full_user : S → QUser → User
  full_user s q =
      new_user z (map (project_roles q.uuid s) q.projects) q.token q.service_roles
        (user_name_of store q.created_by s) q

  -- What others see: no token, creator or service roles, and one project alone.
  unfoldable pub restricted_user : Text → S → QUser → User
  restricted_user project_uuid s q =
      new_user z
        (map (project_roles q.uuid s) (filter (λ p. p.project_uuid == project_uuid) q.projects)) []
        [] [] q

  -- `GetUserByToken`
  unfoldable pub get_user_by_token : Text → S → Result User
  get_user_by_token token s = elim (store.get_user_from_token token s) [
    | ok q ↦ ok (full_user s q)
    | err e ↦ err e
    | panic ↦ panic
  ]

  -- `GetPushWorker`
  unfoldable pub get_push_worker : Text → S → Result User
  get_push_worker token s = elim (get_user_by_token token s) [
    | ok u ↦ ok u
    | err e ↦ err (text "push_500")
    | panic ↦ panic
  ]

  -- `FindUsers`
  unfoldable pub find_users : Text → Text → Text → Bool → S → List User × Error
  find_users project_uuid uuid name privileged s =
      let (qs, e) = store.query_users project_uuid uuid name s in
      let users = map (if privileged then full_user s else restricted_user project_uuid s) qs in
      (users, if has_items users then e else some (text "not found"))

  abbrev only_one : List QUser → S → Result User
  only_one [] s = err (text "not found")
  only_one (q ∷ []) s = ok (full_user s q)
  only_one (q ∷ r ∷ qs) s = err (text "multiple uuids")

  -- `GetUserByUUID`
  unfoldable pub get_user_by_uuid : Text → S → Result User
  get_user_by_uuid uuid s =
      let (qs, e) = store.query_users [] uuid [] s in
      elim e [ some message ↦ err message | none ↦ only_one qs s ]

  -- The stored user, as the updating functions return it.
  abbrev pub stored_user : Text → Text → S → User × Error
  stored_user uuid name s = let (us, e) = find_users [] uuid name true s in (one us, e)

  -- `UpdateUserToken`
  unfoldable pub update_user_token : Text → Text → S → S × (User × Error)
  update_user_token uuid token s =
      let (s', e) = store.update_user_token uuid token s in
      elim e [
        | some message ↦ (s', (empty_user, some message))
        | none ↦ (s', stored_user uuid [] s')
      ]

  abbrev invalid_project : Text → Text
  invalid_project name = text "invalid project: " ++ name

  -- One round of the loop below, with what the later rounds come to.
  unfoldable pub take_project :
      List Text
      → List Text
      → ProjectRoles
      → S
      → Result (List QProjectRoles)
      → Result (List QProjectRoles)
  take_project valid seen p s rest =
      let uuid = get_uuid_by_name store p.project s in
      if contains p.project seen
      then err (text "duplicate reference of project " ++ p.project)
      else if is_empty uuid
      then err (invalid_project p.project)
      else elim (invalid_role store valid p.roles) [
        | some r ↦ err (text "invalid role: " ++ r)
        | none ↦ elim rest [
          | ok qs ↦ ok (record { project_uuid = uuid; roles = p.roles } ∷ qs)
          | err e ↦ err e
          | panic ↦ panic
        ]
      ]

  -- The loop of `CreateUser` and `UpdateUser` over the projects, after those in `seen`.
  unfoldable pub prepared :
      List Text → List Text → List ProjectRoles → S → Result (List QProjectRoles)
  prepared valid seen [] s = ok []
  prepared valid seen (p ∷ ps) s =
      let skipped = prepared valid seen ps s in
      let rest = prepared valid (seen ++ (p.project ∷ [])) ps s in
      if is_empty p.project then skipped else take_project valid seen p s rest

  -- The check of the service roles, which comes after the projects.
  abbrev pub checked :
      List Text → List Text → Result (List QProjectRoles) → Result (List QProjectRoles)
  checked valid roles (ok ps) = elim (invalid_role store valid roles) [
    | some r ↦ err (text "invalid role: " ++ r)
    | none ↦ ok ps
  ]
  checked valid roles (err e) = err e
  checked valid roles panic = panic

  abbrev pub insert_checked :
      (List QProjectRoles → QUser) → Text → Result (List QProjectRoles) → S → S × Result User
  insert_checked user name (err e) s = (s, err e)
  insert_checked user name panic s = (s, panic)
  insert_checked user name (ok ps) s =
      let (s', e) = store.insert_user (user ps) s in
      elim e [
        | some message ↦ (s', err (text "backend error"))
        | none ↦
            (let (u, e') = stored_user [] name s' in
              elim e' [ some message ↦ (s', err message) | none ↦ (s', ok u) ])
      ]

  -- `CreateUser`; of the record, `projects` and the two times are computed here.
  unfoldable pub create_user : QUser → List ProjectRoles → Time → S → S × Result User
  create_user q projects created_on s =
      let valid = store.get_all_roles s in
      if exists_with_name store q.name s
      then (s, err (text "exists"))
      else insert_checked
          (λ ps. record q { projects = ps; created_on = created_on; modified_on = created_on })
          q.name (checked valid q.service_roles (prepared valid [] projects s)) s

  abbrev prepared_if_given :
      List Text → Option (List ProjectRoles) → S → Result (Option (List QProjectRoles))
  prepared_if_given valid none s = ok none
  prepared_if_given valid (some projects) s = elim (prepared valid [] projects s) [
    | ok ps ↦ ok (some ps)
    | err e ↦ err e
    | panic ↦ panic
  ]

  abbrev roles_or_none : Option (List Text) → List Text
  roles_or_none (some roles) = roles
  roles_or_none none = []

  abbrev update_checked : Text → UserFields → Time → Bool → Option Text → S → S × Result User
  update_checked uuid fields modified_on reflect (some r) s = (s, err (text "invalid role: " ++ r))
  update_checked uuid fields modified_on reflect none s =
      let (s', e) = store.update_user uuid fields modified_on s in
      elim e [
        | some message ↦ (s', err message)
        | none ↦
            if reflect
            then (let (u, e') = stored_user uuid [] s' in
                elim e' [ some message ↦ (s', err message) | none ↦ (s', ok u) ])
            else (s', ok empty_user)
      ]

  abbrev update_prepared :
      Text → UserFields → Time → Bool → Result (Option (List QProjectRoles)) → S → S × Result User
  update_prepared uuid fields modified_on reflect (err e) s = (s, err e)
  update_prepared uuid fields modified_on reflect panic s = (s, panic)
  update_prepared uuid fields modified_on reflect (ok ps) s =
      update_checked uuid (record fields { projects = ps }) modified_on reflect
        (invalid_role store (store.get_all_roles s) (roles_or_none fields.service_roles)) s

  -- `UpdateUser`; of the fields, `projects` is computed here.
  unfoldable pub update_user :
      Text → UserFields → Option (List ProjectRoles) → Time → Bool → S → S × Result User
  update_user uuid fields projects modified_on reflect s =
      update_prepared uuid fields modified_on reflect
        (prepared_if_given (store.get_all_roles s) projects s) s
