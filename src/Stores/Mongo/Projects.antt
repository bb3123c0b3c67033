-- ===== src/Stores/Mongo/Projects.antt =====
-- The projects of the store in MongoDB.
use argo_messaging.Base.{
  Text, text, text_eq, Error, ◌==◌, Bool, true, false, ◌||◌, not, none, some, List, [], ◌∷◌,
  is_empty, if◌then◌else◌,
}
use argo_messaging.Projects.{has_items}
use argo_messaging.Stores.Models.{Time, QProject}
use argo_messaging.Stores.Mock.Projects.{or_not_found}
use argo_messaging.Stores.Mongo.{Driver, Mongo, exited, ◌>>=◌, pure, query, on_projects, inserted}

abbrev name_exists : Text
name_exists = text "invalid project name change, name already exists"

-- The selector of `QueryProjects`: a name goes before a uuid.
unfoldable pub project_selector : Text → Text → QProject → Bool
project_selector uuid name p =
    if not (is_empty name)
    then p.name == name
    else if not (is_empty uuid)
    then p.uuid == uuid
    else true

abbrev or_old : Text → Text → Text
or_old new old = if is_empty new then old else new

-- The project, changed as `UpdateProject` does.
abbrev pub changed_project : Text → Text → Time → QProject → QProject
changed_project name description modified_on p = record p {
  modified_on = modified_on;
  name = or_old name p.name;
  description = or_old description p.description;
}

module _ {C : Type 0 → Type 0} (driver : Driver C) where
  -- `QueryProjects`
  unfoldable pub query_projects : Text → Text → Mongo C (List QProject × Error)
  query_projects uuid name = do
    results ← query (λ db. driver.all (project_selector uuid name) db.projects)
    pure (or_not_found results)

  -- Whether the new name is another one and taken.
  name_is_taken : Text → QProject → Mongo C Bool
  name_is_taken name p =
      if is_empty name || name == p.name
      then pure false
      else (do (same, e) ← query_projects [] name; pure (has_items same))

  -- `UpdateProject`, after it has asked for the projects; no error with no project does not occur.
  update_found : Text → Text → Text → Time → List QProject × Error → Mongo C Error
  unfolding name_is_taken
  update_found uuid name description modified_on (results, some e) = pure (some e)
  update_found uuid name description modified_on ([], none) = λ db. exited
  update_found uuid name description modified_on (p ∷ ps, none) = do
    taken ← name_is_taken name p
    if taken
        then pure (some name_exists)
        else on_projects (
            driver.update (λ q. q.uuid == uuid)
              (λ _. changed_project name description modified_on p))

  -- `UpdateProject`
  unfoldable pub update_project : Text → Text → Text → Time → Mongo C Error
  unfolding update_found
  update_project uuid name description modified_on = do
    found ← query_projects uuid []
    update_found uuid name description modified_on found

  -- `InsertProject`
  unfoldable pub insert_project : Text → Text → Time → Time → Text → Text → Mongo C Error
  insert_project uuid name created_on modified_on created_by description = inserted (
      on_projects (
        driver.insert (record {
          uuid = uuid;
          name = name;
          created_on = created_on;
          modified_on = modified_on;
          created_by = created_by;
          description = description;
        })))

  -- `RemoveProject`
  unfoldable pub remove_project : Text → Mongo C Error
  remove_project uuid = on_projects (driver.remove (λ p. p.uuid == uuid))

  -- `HasProject`
  unfoldable pub has_project : Text → Mongo C Bool
  has_project name = do
    results ← query (λ db. driver.all (λ (p : QProject). p.name == name) db.projects)
    pure (has_items results)
