-- ===== src/Examples/Accounts.antt =====
-- Examples on the creation of users.
use argo_messaging.Base.{Text, text, text_eq, ok, List, [], ◌∷◌, ◌≡◌, ◌↔◌}
use argo_messaging.Stores.Models.{QProjectRoles, QUser}
use argo_messaging.Stores.Mock.Instance.{mock}
use argo_messaging.Auth.Users.{ProjectRoles, prepared, create_user}
use argo_messaging.Auth.Users.Creation.{prepared-IsFine, IsFine}
use argo_messaging.Auth.Users.Storing.{IsUserCreated, create_user_lem}
use argo_messaging.Examples.{zulu, store, user}

abbrev roles : List Text
roles = text "consumer" ∷ text "publisher" ∷ []

abbrev projects : List ProjectRoles
projects =
    record { project = text "ARGO"; roles = text "consumer" ∷ []; topics = []; subs = [] } ∷ []

abbrev accepted : List QProjectRoles
accepted = record { project_uuid = text "P"; roles = text "consumer" ∷ [] } ∷ []

prepared-IsFine_example :
    (prepared zulu (mock zulu) roles [] projects store ≡ ok accepted)
    ↔ IsFine zulu (mock zulu) store roles [] projects accepted
prepared-IsFine_example = prepared-IsFine zulu (mock zulu) store roles [] projects accepted

abbrev new_user : QUser
new_user = record user { uuid = text "W"; name = text "UserB"; token = text "T" }

create_user_lem_example :
    IsUserCreated zulu new_user projects 5 store
      (create_user zulu (mock zulu) new_user projects 5 store)
create_user_lem_example = create_user_lem zulu new_user projects 5 store
