-- ===== src/Stores/Mongo/Collections.antt =====
-- A change of one collection of stores/mongo.go beside the same change of the list in memory.
use argo_messaging.Base.{
  text_eq, text_beq, Error, Bool, Option, none, some, List, [], ◌∷◌, ◌++◌, modify_first,
  remove_first, ◌≡◌, refl, ap, ◌∙◌, ◌⊎◌, inl, inr,
}
use mathlib.Core.Path.{subst}
use argo_messaging.Stores.Models.{QSub, QTopic, QUser, QProject, QSchema}
use argo_messaging.Stores.Mock.State.{Mock, not_found}
use argo_messaging.Stores.Mock.Subs
use argo_messaging.Stores.Mock.Topics
use argo_messaging.Stores.Mock.Users
use argo_messaging.Stores.Mock.Projects
use argo_messaging.Stores.Mock.Schemas
use argo_messaging.Stores.Mongo.{
  Driver, Db, Ran, returned, on_subscriptions, on_topics, on_users, on_projects, on_schemas, pure,
  fatal_error, fatal_unless_not_found, err_not_found, ◌>>◌,
}
use argo_messaging.Stores.Mongo.Laws.{Documented, Follows}
use argo_messaging.Stores.Mongo.Calls.{Represents, Simulates}

module _ {C : Type 0 → Type 0} (driver : Driver C) (laws : Documented driver) where
  abbrev Holds : Db C → Mock → Type 0
  Holds = Represents driver laws

  abbrev IsAlike : Ran (Db C) Error → Mock × Error → Type 0
  IsAlike = Simulates driver laws

  abbrev pub FollowsHere : {D : Type 0} → C D × Error → List D → Option (List D) → Type 0
  FollowsHere = Follows laws.contents

  pub subs-Simulates :
      (db : Db C) (mk : Mock) (f : C QSub → C QSub × Error) (o : Option (List QSub))
      → Holds db mk
      → FollowsHere (f db.subscriptions) mk.sub_list o
      → IsAlike (on_subscriptions f db) (Subs.set_subs o not_found mk)
  subs-Simulates db mk f none rep h = (
    h.1,
    record {
      subscriptions = h.0;
      topics = rep.topics;
      users = rep.users;
      projects = rep.projects;
      schemas = rep.schemas;
      registrations = rep.registrations;
    },
  )
  subs-Simulates db mk f (some ss) rep h = (
    h.1,
    record {
      subscriptions = h.0;
      topics = rep.topics;
      users = rep.users;
      projects = rep.projects;
      schemas = rep.schemas;
      registrations = rep.registrations;
    },
  )

  pub topics-Simulates :
      (db : Db C) (mk : Mock) (f : C QTopic → C QTopic × Error) (o : Option (List QTopic))
      → Holds db mk
      → FollowsHere (f db.topics) mk.topic_list o
      → IsAlike (on_topics f db) (Topics.set_topics o not_found mk)
  topics-Simulates db mk f none rep h = (
    h.1,
    record {
      subscriptions = rep.subscriptions;
      topics = h.0;
      users = rep.users;
      projects = rep.projects;
      schemas = rep.schemas;
      registrations = rep.registrations;
    },
  )
  topics-Simulates db mk f (some ts) rep h = (
    h.1,
    record {
      subscriptions = rep.subscriptions;
      topics = h.0;
      users = rep.users;
      projects = rep.projects;
      schemas = rep.schemas;
      registrations = rep.registrations;
    },
  )

  pub users-Simulates :
      (db : Db C) (mk : Mock) (f : C QUser → C QUser × Error) (o : Option (List QUser))
      → Holds db mk
      → FollowsHere (f db.users) mk.user_list o
      → IsAlike (on_users f db) (Users.set_users o mk)
  users-Simulates db mk f none rep h = (
    h.1,
    record {
      subscriptions = rep.subscriptions;
      topics = rep.topics;
      users = h.0;
      projects = rep.projects;
      schemas = rep.schemas;
      registrations = rep.registrations;
    },
  )
  users-Simulates db mk f (some us) rep h = (
    h.1,
    record {
      subscriptions = rep.subscriptions;
      topics = rep.topics;
      users = h.0;
      projects = rep.projects;
      schemas = rep.schemas;
      registrations = rep.registrations;
    },
  )

  pub projects-Simulates :
      (db : Db C) (mk : Mock) (f : C QProject → C QProject × Error) (o : Option (List QProject))
      → Holds db mk
      → FollowsHere (f db.projects) mk.project_list o
      → IsAlike (on_projects f db) (Projects.set_projects o mk)
  projects-Simulates db mk f none rep h = (
    h.1,
    record {
      subscriptions = rep.subscriptions;
      topics = rep.topics;
      users = rep.users;
      projects = h.0;
      schemas = rep.schemas;
      registrations = rep.registrations;
    },
  )
  projects-Simulates db mk f (some ps) rep h = (
    h.1,
    record {
      subscriptions = rep.subscriptions;
      topics = rep.topics;
      users = rep.users;
      projects = h.0;
      schemas = rep.schemas;
      registrations = rep.registrations;
    },
  )

  pub schemas-Simulates :
      (db : Db C) (mk : Mock) (f : C QSchema → C QSchema × Error) (o : Option (List QSchema))
      → Holds db mk
      → FollowsHere (f db.schemas) mk.schema_list o
      → IsAlike (on_schemas f db) (Schemas.set_schemas o mk)
  schemas-Simulates db mk f none rep h = (
    h.1,
    record {
      subscriptions = rep.subscriptions;
      topics = rep.topics;
      users = rep.users;
      projects = rep.projects;
      schemas = h.0;
      registrations = rep.registrations;
    },
  )
  schemas-Simulates db mk f (some ss) rep h = (
    h.1,
    record {
      subscriptions = rep.subscriptions;
      topics = rep.topics;
      users = rep.users;
      projects = rep.projects;
      schemas = h.0;
      registrations = rep.registrations;
    },
  )

  pub update-Follows :
      {D : Type 0} (p : D → Bool) (f : D → D) (c : C D) (ds : List D)
      → laws.contents c ≡ ds
      → FollowsHere (driver.update p f c) ds (modify_first p f ds)
  update-Follows p f c ds e =
      subst (λ l. FollowsHere (driver.update p f c) l (modify_first p f l)) e
        (laws.update-contents p f c)

  pub remove-Follows :
      {D : Type 0} (p : D → Bool) (c : C D) (ds : List D)
      → laws.contents c ≡ ds
      → FollowsHere (driver.remove p c) ds (remove_first p ds)
  remove-Follows p c ds e =
      subst (λ l. FollowsHere (driver.remove p c) l (remove_first p l)) e (laws.remove-contents p c)

  pub sub_update-Simulates :
      (db : Db C) (mk : Mock) (p : QSub → Bool) (f : QSub → QSub)
      → Holds db mk
      → IsAlike
          (on_subscriptions (driver.update p f) db)
          (Subs.set_subs (modify_first p f mk.sub_list) not_found mk)
  sub_update-Simulates db mk p f rep =
      subs-Simulates db mk (driver.update p f) _ rep
        (update-Follows p f db.subscriptions _ rep.subscriptions)

  pub user_update-Simulates :
      (db : Db C) (mk : Mock) (p : QUser → Bool) (f : QUser → QUser)
      → Holds db mk
      → IsAlike
          (on_users (driver.update p f) db)
          (Users.set_users (modify_first p f mk.user_list) mk)
  user_update-Simulates db mk p f rep =
      users-Simulates db mk (driver.update p f) _ rep (update-Follows p f db.users _ rep.users)

  pub sub_remove-Simulates :
      (db : Db C) (mk : Mock) (p : QSub → Bool)
      → Holds db mk
      → IsAlike
          (on_subscriptions (driver.remove p) db)
          (Subs.set_subs (remove_first p mk.sub_list) not_found mk)
  sub_remove-Simulates db mk p rep =
      subs-Simulates db mk (driver.remove p) _ rep
        (remove-Follows p db.subscriptions _ rep.subscriptions)

  pub topic_remove-Simulates :
      (db : Db C) (mk : Mock) (p : QTopic → Bool)
      → Holds db mk
      → IsAlike
          (on_topics (driver.remove p) db)
          (Topics.set_topics (remove_first p mk.topic_list) not_found mk)
  topic_remove-Simulates db mk p rep =
      topics-Simulates db mk (driver.remove p) _ rep (remove-Follows p db.topics _ rep.topics)

  pub user_remove-Simulates :
      (db : Db C) (mk : Mock) (p : QUser → Bool)
      → Holds db mk
      → IsAlike (on_users (driver.remove p) db) (Users.set_users (remove_first p mk.user_list) mk)
  user_remove-Simulates db mk p rep =
      users-Simulates db mk (driver.remove p) _ rep (remove-Follows p db.users _ rep.users)

  pub project_remove-Simulates :
      (db : Db C) (mk : Mock) (p : QProject → Bool)
      → Holds db mk
      → IsAlike
          (on_projects (driver.remove p) db)
          (Projects.set_projects (remove_first p mk.project_list) mk)
  project_remove-Simulates db mk p rep =
      projects-Simulates db mk (driver.remove p) _ rep (remove-Follows p db.projects _ rep.projects)

  pub schema_update-Simulates :
      (db : Db C) (mk : Mock) (p : QSchema → Bool) (f : QSchema → QSchema)
      → Holds db mk
      → IsAlike
          (on_schemas (driver.update p f) db)
          (Schemas.set_schemas (modify_first p f mk.schema_list) mk)
  schema_update-Simulates db mk p f rep =
      schemas-Simulates db mk (driver.update p f) _ rep
        (update-Follows p f db.schemas _ rep.schemas)

  pub inserted-Simulates :
      (e : Error) (db : Db C) (mk : Mock)
      → e ≡ none
      → Holds db mk
      → IsAlike ((fatal_error e >> pure none) db) (mk, none)
  inserted-Simulates none db mk h rep = (refl, rep)
  inserted-Simulates (some e) db mk h rep = cc

  pub insert-contents :
      {D : Type 0} (d : D) (c : C D) (ds : List D)
      → laws.contents c ≡ ds
      → laws.contents (driver.insert d c).0 ≡ ds ++ (d ∷ [])
  insert-contents d c ds e = (laws.insert-contents d c).0 ∙ ap (λ l. l ++ (d ∷ [])) e

  pub usual_error :
      {D : Type 0} (r : C D × Error) (ds : List D) (o : Option (List D))
      → FollowsHere r ds o
      → (r.1 ≡ none) ⊎ (r.1 ≡ some err_not_found)
  usual_error r ds none h = inr h.1
  usual_error r ds (some ds') h = inl h.1

  pub unless_not_found-Simulates :
      (e : Error) (db : Db C) (w : Mock × Error)
      → (e ≡ none) ⊎ (e ≡ some err_not_found)
      → IsAlike (returned db e) w
      → IsAlike ((fatal_unless_not_found e >> pure e) db) w
  unfolding text_beq
  unless_not_found-Simulates none db w u h = h
  unless_not_found-Simulates (some e) db w (inl u) h = cc
  unless_not_found-Simulates (some e) db w (inr u) h =
      let same : e ≡ err_not_found = cc in
      let h' : IsAlike (returned db (some err_not_found)) w = rw same at h in rw same h'
