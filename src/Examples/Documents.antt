-- ===== src/Examples/Documents.antt =====
-- Examples on the store in MongoDB: a driver whose collections are lists.
use argo_messaging.Base.{
  text, text_eq, text_beq, Error, arith, not, Option, none, some, List, [], ◌∷◌, ◌++◌, length,
  filter, find_first, modify_first, modify_all, remove_first, refl, inr,
}
use argo_messaging.Base.Int.{pos, ◌+ℤ◌}
use argo_messaging.Stores.Models.{QSub}
use argo_messaging.Stores.Mock.State.{Mock}
use argo_messaging.Stores.Mock.Subs
use argo_messaging.Stores.Mock.Projects
use argo_messaging.Stores.Mongo.{Driver, Db, err_not_found}
use argo_messaging.Stores.Mongo.Laws.{Documented, Follows, one_of}
use argo_messaging.Stores.Mongo.Calls.{
  Call, mod_ack, increment_sub_msg_num, remove_sub, insert_project,
}
use argo_messaging.Stores.Mongo.Refinement.{
  all_in_memory, all_in_mongo, calls-AreAlike, AreAlike, AreUsual,
}
use argo_messaging.Examples.{sub, store}

abbrev or_missing : {D : Type 0} → List D → Option (List D) → List D × Error
or_missing old none = (old, some err_not_found)
or_missing old (some new) = (new, none)

abbrev upserted : {D : Type 0} → Option (List D) → D → List D → List D × Error
upserted none d old = (old ++ (d ∷ []), none)
upserted (some new) d old = (new, none)

abbrev driver : Driver List
driver = record {
  all = λ p c. inr (filter p c);
  one = λ p c. one_of (find_first p c);
  count = λ p c. inr (length (filter p c));
  page = λ key p limit c. inr (filter p c);
  distinct = λ values c. inr [];
  insert = λ d c. (c ++ (d ∷ []), none);
  update = λ p f c. or_missing c (modify_first p f c);
  update_all = λ p f c. (modify_all p f c, none);
  update_nothing = λ p c. (c, some (text "'$set' is empty"));
  increment =
      λ p field set amount c. or_missing c (modify_first p (λ d. set (field d +ℤ amount) d) c);
  upsert_increment =
      λ p field set amount d c. upserted (modify_first p (λ d'. set (field d' +ℤ amount) d') c) d c;
  remove = λ p c. or_missing c (remove_first p c);
  remove_all = λ p c. (filter (λ d. not (p d)) c, none);
  add_to_set = λ old new. old ++ new;
  pull_all = λ old gone. old;
  object_id = λ token. none;
  hex = λ n. [];
}

or_missing-Follows :
    {D : Type 0} (old : List D) (o : Option (List D))
    → Follows {X = List D} (λ c. c) (or_missing old o) old o
or_missing-Follows old none = (refl, refl)
or_missing-Follows old (some new) = (refl, refl)

abbrev documented : Documented driver
documented = record {
  contents = λ c. c;
  all-contents = λ p c. refl;
  one-contents = λ p c. refl;
  insert-contents = λ d c. (refl, refl);
  update-contents = λ p f c. or_missing-Follows c (modify_first p f c);
  increment-contents = λ p field set amount c fits.
      or_missing-Follows c (modify_first p (λ d. set (field d +ℤ amount) d) c);
  update_all-contents = λ p f c. refl;
  remove-contents = λ p c. or_missing-Follows c (remove_first p c);
}

-- A subscription from which offsets up to 7 were pulled, 3 seconds after the start.
abbrev pulled : QSub
pulled = record sub { next_offset = pos 7; pending_ack = text "3" }

abbrev db : Db List
db = record {
  subscriptions = pulled ∷ [];
  topics = store.topic_list;
  users = store.user_list;
  projects = store.project_list;
  schemas = [];
  user_registrations = [];
  daily_topic_msg_count = [];
  roles = [];
}

abbrev memory : Mock
memory = record store { sub_list = pulled ∷ [] }

abbrev calls : List Call
calls =
    mod_ack (text "P") (text "s") (pos 20)
    ∷ insert_project (text "Q") (text "NEW") 1 1 [] []
    ∷ increment_sub_msg_num (text "P") (text "s") (pos 3)
    ∷ remove_sub (text "P") (text "s")
    ∷ remove_sub (text "P") (text "s")
    ∷ []

usual : AreUsual calls memory
unfolding find_first Subs.is_sub Subs.mod_ack Projects.insert_project modify_first text_beq ◌+ℤ◌
usual = (tt, (tt, ((omega arith, omega arith), (tt, (tt, tt)))))

calls-AreAlike_example :
    AreAlike driver documented (all_in_mongo driver calls db) (all_in_memory calls memory)
calls-AreAlike_example =
    calls-AreAlike driver documented calls db memory
      (record {
        subscriptions = refl;
        topics = refl;
        users = refl;
        projects = refl;
        schemas = refl;
        registrations = refl;
      })
      usual
