-- ===== src/Stores/Mongo/Increments.antt =====
-- An increment of a counter in stores/mongo.go beside the same one in memory.
use argo_messaging.Base.{
  text_eq, Error, Bool, some, List, [], ◌∷◌, modify_first, find_first, if◌then◌else◌, Bool-cases,
  ◌≡◌, refl, inl, inr,
}
use mathlib.Core.Path.{subst}
use argo_messaging.Base.Int.{ℤ, ◌+ℤ◌, IsInt64, add64, add64_of_IsInt64}
use argo_messaging.Stores.Models.{QSub, QTopic}
use argo_messaging.Stores.Mock.State.{Mock, not_found}
use argo_messaging.Stores.Mock.Subs
use argo_messaging.Stores.Mock.Topics
use argo_messaging.Stores.Mongo.{Driver, Db, Ran, on_subscriptions, on_topics}
use argo_messaging.Stores.Mongo.Laws.{Documented, Follows, Fits}
use argo_messaging.Stores.Mongo.Calls.{Represents, Simulates}
use argo_messaging.Stores.Mongo.Collections.{subs-Simulates, topics-Simulates}

module _ {C : Type 0 → Type 0} (driver : Driver C) (laws : Documented driver) where
  abbrev Holds : Db C → Mock → Type 0
  Holds = Represents driver laws

  abbrev IsAlike : Ran (Db C) Error → Mock × Error → Type 0
  IsAlike = Simulates driver laws

  -- An increment that fits adds as the 64-bit integers of the source do.
  add64-Follows :
      {D : Type 0} (p : D → Bool) (field : D → ℤ) (set : ℤ → D → D) (amount : ℤ) (ds : List D)
      → Fits field amount (find_first p ds)
      → modify_first p (λ d. set (field d +ℤ amount) d) ds
        ≡ modify_first p (λ d. set (add64 (field d) amount) d) ds
  unfolding modify_first find_first
  add64-Follows p field set amount [] fits = refl
  add64-Follows p field set amount (d ∷ ds) fits = elim (Bool-cases (p d)) [
    | inl e ↦
        let fits' : IsInt64 (field d +ℤ amount) =
          subst (λ b. Fits field amount (if b then some d else find_first p ds)) e fits in
        rw (e, add64_of_IsInt64 (field d) amount fits') refl
    | inr e ↦
        let fits' : Fits field amount (find_first p ds) =
          subst (λ b. Fits field amount (if b then some d else find_first p ds)) e fits in
        rw (e, add64-Follows p field set amount ds fits') refl
  ]

  increment-Follows :
      {D : Type 0} (p : D → Bool) (field : D → ℤ) (set : ℤ → D → D) (amount : ℤ) (c : C D)
      (ds : List D)
      → laws.contents c ≡ ds
      → Fits field amount (find_first p ds)
      → Follows laws.contents
          (driver.increment p field set amount c)
          ds
          (modify_first p (λ d. set (add64 (field d) amount) d) ds)
  increment-Follows p field set amount c ds e fits =
      let here : Fits field amount (find_first p (laws.contents c)) = rw e fits in
      let h = laws.increment-contents p field set amount c here in
      rw (← add64-Follows p field set amount ds fits, ← e) h

  pub sub_increment-Simulates :
      (db : Db C) (mk : Mock) (p : QSub → Bool) (field : QSub → ℤ) (set : ℤ → QSub → QSub)
      (amount : ℤ)
      → Holds db mk
      → Fits field amount (find_first p mk.sub_list)
      → IsAlike (on_subscriptions (driver.increment p field set amount) db) (
          Subs.set_subs
            (modify_first p (λ d. set (add64 (field d) amount) d) mk.sub_list)
            not_found
            mk)
  sub_increment-Simulates db mk p field set amount rep fits =
      subs-Simulates driver laws db mk (driver.increment p field set amount) _ rep
        (increment-Follows p field set amount db.subscriptions _ rep.subscriptions fits)

  pub topic_increment-Simulates :
      (db : Db C) (mk : Mock) (p : QTopic → Bool) (field : QTopic → ℤ) (set : ℤ → QTopic → QTopic)
      (amount : ℤ)
      → Holds db mk
      → Fits field amount (find_first p mk.topic_list)
      → IsAlike (on_topics (driver.increment p field set amount) db) (
          Topics.set_topics
            (modify_first p (λ d. set (add64 (field d) amount) d) mk.topic_list)
            not_found
            mk)
  topic_increment-Simulates db mk p field set amount rep fits =
      topics-Simulates driver laws db mk (driver.increment p field set amount) _ rep
        (increment-Follows p field set amount db.topics _ rep.topics fits)
