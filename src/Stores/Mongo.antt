-- ===== src/Stores/Mongo.antt =====
-- stores/mongo.go: the store in MongoDB. The driver (mgo) is a parameter: a selector is the test that a
-- document passes, and a change is what it makes of a document. A method that calls `log.Fatal` ends the
-- process.
pub mod Projects
pub mod Users
pub mod Registrations
pub mod Pages
pub mod Subs
pub mod Topics
pub mod Acl
pub mod Schemas
pub mod Laws
pub mod Calls
pub mod Collections
pub mod Increments
pub mod Refinement
pub mod Judgement
pub mod Acknowledgement
use argo_messaging.Base.{
  ℕ, Text, text, text_eq, Error, ◌==◌, Bool, Option, none, some, List, [], ◌∷◌, if◌then◌else◌, ◌⊎◌,
  inl, inr,
}
use argo_messaging.Base.Int.{ℤ}
use argo_messaging.Stores.Models.{
  QSub, QProject, QUser, QUserRegistration, QTopic, QRole, QSchema, QDailyTopicMsgCount,
}

-- The calls on a collection of documents. On the left an error of the driver.
pub record Driver (C : Type 0 → Type 0) : Type 1 where
  pub all : {D : Type 0} → (D → Bool) → C D → Text ⊎ List D  -- `Find(selector).All`
  pub one : {D : Type 0} → (D → Bool) → C D → Text ⊎ D  -- `Find(selector).One`
  pub count : {D : Type 0} → (D → Bool) → C D → Text ⊎ ℕ  -- `Find(selector).Count`
  -- `Find(selector).Sort("-" + key).Limit(limit).All`
  pub page : {D : Type 0} → (D → ℕ) → (D → Bool) → ℤ → C D → Text ⊎ List D
  pub distinct : {D : Type 0} → (D → List Text) → C D → Text ⊎ List Text  -- `Find(nil).Distinct`
  pub insert : {D : Type 0} → D → C D → C D × Error
  pub update : {D : Type 0} → (D → Bool) → (D → D) → C D → C D × Error
  pub update_all : {D : Type 0} → (D → Bool) → (D → D) → C D → C D × Error
  -- `Update` with a `$set` of no field
  pub update_nothing : {D : Type 0} → (D → Bool) → C D → C D × Error
  -- `Update` with `$inc` of a field, which is read and set, by an amount
  pub increment : {D : Type 0} → (D → Bool) → (D → ℤ) → (ℤ → D → D) → ℤ → C D → C D × Error
  -- `Upsert` with `$inc`, with the document that is inserted where there is none
  pub upsert_increment :
      {D : Type 0} → (D → Bool) → (D → ℤ) → (ℤ → D → D) → ℤ → D → C D → C D × Error
  pub remove : {D : Type 0} → (D → Bool) → C D → C D × Error
  pub remove_all : {D : Type 0} → (D → Bool) → C D → C D × Error
  -- `$addToSet` with `$each`, and `$pullAll`, on the old value of a field
  pub add_to_set : {A : Type 0} → List A → List A → List A
  pub pull_all : {A : Type 0} → List A → List A → List A
  -- `bson.ObjectIdHex`, where `IsObjectIdHex`, and `Hex`
  pub object_id : Text → Option ℕ
  pub hex : ℕ → Text

-- The collections of the database.
pub record Db (C : Type 0 → Type 0) : Type 0 where
  pub subscriptions : C QSub
  pub topics : C QTopic
  pub users : C QUser
  pub projects : C QProject
  pub schemas : C QSchema
  pub user_registrations : C QUserRegistration
  pub daily_topic_msg_count : C QDailyTopicMsgCount
  pub roles : C QRole

-- What a method comes to: the end of the process, or a return.
pub data Ran (W A : Type 0) : Type 0 where
  returned : W → A → Ran W A
  exited : Ran W A

abbrev pub Mongo : (Type 0 → Type 0) → Type 0 → Type 0
Mongo C A = Db C → Ran (Db C) A

infixl 5 ◌>>=◌ ◌>>◌
abbrev pub ◌>>=◌ : {C : Type 0 → Type 0} {A B : Type 0} → Mongo C A → (A → Mongo C B) → Mongo C B
◌>>=◌ {C} {A} {B} m f db = elim (m db) as (λ r. Ran (Db C) B) [
  | returned db' a ↦ f a db'
  | exited ↦ exited
]

abbrev pub ◌>>◌ : {C : Type 0 → Type 0} {B : Type 0} → Mongo C (Unit {0}) → Mongo C B → Mongo C B
m >> k = m >>= λ _. k

abbrev pub pure : {C : Type 0 → Type 0} {A : Type 0} → A → Mongo C A
pure a db = returned db a

-- `log.Fatal`
abbrev pub fatal : {C : Type 0 → Type 0} {A : Type 0} → Mongo C A
fatal db = exited

-- `if err != nil { log.Fatal }` after a query
abbrev pub or_fatal : {C : Type 0 → Type 0} {A : Type 0} → Text ⊎ A → Mongo C A
or_fatal (inl e) = fatal
or_fatal (inr a) = pure a

-- `if err != nil { log.Fatal }`
abbrev pub fatal_error : {C : Type 0 → Type 0} → Error → Mongo C (Unit {0})
fatal_error none = pure tt
fatal_error (some e) = fatal

-- `mgo.ErrNotFound`
abbrev pub err_not_found : Text
err_not_found = text "not found"

-- `if err != nil && err != mgo.ErrNotFound { log.Fatal }`
abbrev pub fatal_unless_not_found : {C : Type 0 → Type 0} → Error → Mongo C (Unit {0})
fatal_unless_not_found none = pure tt
fatal_unless_not_found (some e) = if e == err_not_found then pure tt else fatal

-- A query.
abbrev pub query : {C : Type 0 → Type 0} {A : Type 0} → (Db C → Text ⊎ A) → Mongo C A
query f db = or_fatal (f db) db

-- A change of one collection.
module _ {C : Type 0 → Type 0} {A : Type 0} where
  abbrev pub on_subscriptions : (C QSub → C QSub × A) → Mongo C A
  on_subscriptions f db =
      let (c, a) = f db.subscriptions in returned (record db { subscriptions = c }) a

  abbrev pub on_topics : (C QTopic → C QTopic × A) → Mongo C A
  on_topics f db = let (c, a) = f db.topics in returned (record db { topics = c }) a

  abbrev pub on_users : (C QUser → C QUser × A) → Mongo C A
  on_users f db = let (c, a) = f db.users in returned (record db { users = c }) a

  abbrev pub on_projects : (C QProject → C QProject × A) → Mongo C A
  on_projects f db = let (c, a) = f db.projects in returned (record db { projects = c }) a

  abbrev pub on_schemas : (C QSchema → C QSchema × A) → Mongo C A
  on_schemas f db = let (c, a) = f db.schemas in returned (record db { schemas = c }) a

  abbrev pub on_registrations : (C QUserRegistration → C QUserRegistration × A) → Mongo C A
  on_registrations f db =
      let (c, a) = f db.user_registrations in returned (record db { user_registrations = c }) a

  abbrev pub on_daily : (C QDailyTopicMsgCount → C QDailyTopicMsgCount × A) → Mongo C A
  on_daily f db =
      let (c, a) = f db.daily_topic_msg_count in
      returned (record db { daily_topic_msg_count = c }) a

-- `InsertResource`: an error is fatal.
module _ {C : Type 0 → Type 0} where
  abbrev pub inserted : Mongo C Error → Mongo C Error
  inserted insert = do e ← insert; fatal_error e; pure none
