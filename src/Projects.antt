-- ===== src/Projects.antt =====
-- projects/project.go: the projects, over any store.
pub mod Removal
use argo_messaging.Base.{
  Text, text, Error, is_nil, Result, ok, err, ◌==◌, text_eq, Bool, true, false, ◌&&◌, Option, none,
  some, List, [], ◌∷◌, map, is_empty, if◌then◌else◌,
}
use argo_messaging.Stores.Models.{Time, QProject, QUser}
use argo_messaging.Stores.Times.{Zulu}
use argo_messaging.Stores.Interface.{Store}

pub record Project : Type 0 where
  pub uuid : Text
  pub name : Text
  pub created_on : Text
  pub modified_on : Text
  pub created_by : Text
  pub description : Text

abbrev pub empty_project : Project
empty_project = record {
  uuid = [];
  name = [];
  created_on = [];
  modified_on = [];
  created_by = [];
  description = [];
}

-- `One`
unfoldable pub one : List Project → Project
one [] = empty_project
one (p ∷ ps) = p

-- `len(list) > 0`
abbrev pub has_items : {A : Type 0} → List A → Bool
has_items [] = false
has_items (x ∷ xs) = true

-- The name of the first result, if there was one and no error.
abbrev first_name_of : List QUser × Error → Text
first_name_of ([], e) = []
first_name_of (u ∷ us, e) = if is_nil e then u.name else []

abbrev first_project_name : List QProject × Error → Text
first_project_name ([], e) = []
first_project_name (p ∷ ps, e) = if is_nil e then p.name else []

abbrev first_project_uuid : List QProject × Error → Text
first_project_uuid ([], e) = []
first_project_uuid (p ∷ ps, e) = if is_nil e then p.uuid else []

module _ {S : Type 0} (store : Store S) where
  -- The user name behind a uuid, as the packages look it up; none is asked for an empty uuid.
  unfoldable pub user_name_of : Text → S → Text
  user_name_of created_by s =
      if is_empty created_by then [] else first_name_of (store.query_users [] created_by [] s)

  -- `NewProject`, with the creator's name.
  unfoldable pub new_project : Zulu → S → QProject → Project
  new_project z s p = record {
    uuid = p.uuid;
    name = p.name;
    created_on = z.format p.created_on;
    modified_on = z.format p.modified_on;
    created_by = user_name_of p.created_by s;
    description = p.description;
  }

  -- `Find`: the projects, and the store's error.
  unfoldable pub find : Zulu → Text → Text → S → List Project × Error
  find z uuid name s =
      let (ps, e) = store.query_projects uuid name s in (map (new_project z s) ps, e)

  -- `GetNameByUUID`
  unfoldable pub get_name_by_uuid : Text → S → Text
  get_name_by_uuid uuid s =
      if is_empty uuid then [] else first_project_name (store.query_projects uuid [] s)

  -- `GetUUIDByName`
  unfoldable pub get_uuid_by_name : Text → S → Text
  get_uuid_by_name name s =
      if is_empty name then [] else first_project_uuid (store.query_projects [] name s)

  -- `ExistsWithName`
  unfoldable pub exists_with_name : Text → S → Bool
  exists_with_name name s =
      if is_empty name
      then false
      else (let (ps, e) = store.query_projects [] name s in has_items ps && is_nil e)

  -- `ExistsWithUUID`
  unfoldable pub exists_with_uuid : Text → S → Bool
  exists_with_uuid uuid s =
      if is_empty uuid
      then false
      else (let (ps, e) = store.query_projects uuid [] s in has_items ps && is_nil e)

  -- `HasProject`
  unfoldable pub has_project : Text → S → Bool
  has_project name s = has_items (store.query_projects [] name s).0

  -- `CreateProject`
  unfoldable pub create_project :
      Zulu → Text → Text → Time → Text → Text → S → S × (Project × Error)
  create_project z uuid name created_on created_by description s =
      if exists_with_name name s
      then (s, (empty_project, some (text "exists")))
      else (let (s', e) =
            store.insert_project uuid name created_on created_on created_by description s in
          if is_nil e
          then (let (ps, e') = find z [] name s' in (s', (one ps, e')))
          else (s', (empty_project, some (text "backend error"))))

  -- `UpdateProject`
  unfoldable pub update_project : Zulu → Text → Text → Text → Time → S → S × (Project × Error)
  update_project z uuid name description modified_on s =
      if exists_with_uuid uuid s
      then (let (s', e) = store.update_project uuid name description modified_on s in
          if is_nil e
          then (let (ps, e') = find z uuid name s' in (s', (one ps, e')))
          else (s', (empty_project, e)))
      else (s, (empty_project, some (text "not found")))

  -- The error of a step of `RemoveProject`: "not found" as it is, any other renamed.
  abbrev step_error : Text → Text
  step_error e = if e == text "not found" then e else text "backend error"

  -- One removal of `RemoveProject`, and what follows it where it succeeded.
  abbrev removal : S × Error → (S → S × Error) → S × Error
  removal (s, none) next = next s
  removal (s, some e) next = (s, some (step_error e))

  -- `RemoveProject`
  unfoldable pub remove_project : Text → S → S × Error
  remove_project uuid s =
      if exists_with_uuid uuid s
      then removal (store.remove_project uuid s) (λ s1.
        removal (store.remove_project_topics uuid s1)
          (λ s2. removal (store.remove_project_subs uuid s2) (λ s3. (s3, none))))
      else (s, some (text "not found"))
