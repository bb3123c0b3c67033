-- ===== src/Stores/Mock/Projects.antt =====
-- The projects of the store in memory.
use argo_messaging.Base.{
  Text, Error, ◌==◌, text_eq, Bool, Option, none, some, List, [], ◌∷◌, ◌++◌, is_empty, modify_first,
  remove_first, find_first, option_list, any, if◌then◌else◌,
}
use argo_messaging.Stores.Models.{Time, QProject}
use argo_messaging.Stores.Mock.State.{Mock, not_found}

abbrev pub set_projects : Option (List QProject) → Mock → Mock × Error
set_projects (some ps) mk = (record mk { project_list = ps }, none)
set_projects none mk = (mk, some not_found)

-- `nil` if there are results, and an error otherwise.
abbrev pub or_not_found : {A : Type 0} → List A → List A × Error
or_not_found [] = ([], some not_found)
or_not_found (x ∷ xs) = (x ∷ xs, none)

-- `QueryProjects`; a name goes before a uuid.
unfoldable pub query_projects : Text → Text → Mock → List QProject × Error
query_projects uuid name mk = or_not_found (
    if is_empty name
    then (if is_empty uuid
        then mk.project_list
        else option_list (find_first (λ p. p.uuid == uuid) mk.project_list))
    else option_list (find_first (λ p. p.name == name) mk.project_list))

-- `InsertProject`
unfoldable pub insert_project : Text → Text → Time → Time → Text → Text → Mock → Mock × Error
insert_project uuid name created_on modified_on created_by description mk =
    let project : QProject = record {
      uuid = uuid;
      name = name;
      created_on = created_on;
      modified_on = modified_on;
      created_by = created_by;
      description = description;
    } in
    (record mk { project_list = mk.project_list ++ (project ∷ []) }, none)

-- The new value, where one is given.
abbrev or_old : Text → Text → Text
or_old new old = if is_empty new then old else new

-- `UpdateProject`
unfoldable pub update_project : Text → Text → Text → Time → Mock → Mock × Error
update_project uuid name description modified_on mk =
    set_projects
      (modify_first (λ p. p.uuid == uuid)
        (λ p. record p {
          description = or_old description p.description;
          name = or_old name p.name;
          modified_on = modified_on;
        })
        mk.project_list)
      mk

-- `RemoveProject`
unfoldable pub remove_project : Text → Mock → Mock × Error
remove_project uuid mk = set_projects (remove_first (λ p. p.uuid == uuid) mk.project_list) mk

-- `HasProject`
unfoldable pub has_project : Text → Mock → Bool
has_project name mk = any (λ p. p.name == name) mk.project_list
