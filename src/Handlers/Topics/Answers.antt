-- ===== src/Handlers/Topics/Answers.antt =====
-- How often `TopicCreate` answers.
use argo_messaging.Base.{
  Text, text, text_eq, Error, ◌==◌, Bool, true, false, Option, none, some, List, [], ◌∷◌, ◌≡◌, refl,
  ap, ◌∙◌, ◌↔◌, inr, Bool-cases, inl,
}
use argo_messaging.Stores.Models.{Time}
use argo_messaging.Stores.Times.{Zulu}
use argo_messaging.Stores.Interface.{Store}
use argo_messaging.Schemas.{Lang}
use argo_messaging.Topics.{Topic, create_topic}
use argo_messaging.Handlers.{
  Write, respond_err, Outcome, written, parsed, AnswersOnce, generic_internal,
}
use argo_messaging.Handlers.Topics.{export_writes, created, schema_uuid_of, topic_create}

-- `CreateTopic` succeeds or fails with "exists".
abbrev pub is_expected : Error → Bool
is_expected none = true
is_expected (some e) = e == text "exists"

abbrev rest_of : Outcome Text → List (Write Text)
rest_of (written (w ∷ ws)) = ws
rest_of _ = []

-- More than one response.
abbrev writes_more : Outcome Text → Bool
writes_more (written (w ∷ v ∷ ws)) = true
writes_more _ = false

two_answers :
    (w : Write Text) (json : Option Text) → AnswersOnce (written (w ∷ export_writes json)) → ⊥
two_answers w none (v, e) = let h : true ≡ false = ap writes_more e in cc
two_answers w (some json) (v, e) = let h : true ≡ false = ap writes_more e in cc

exports_once : (json : Option Text) → AnswersOnce (written (export_writes json))
exports_once none = (_, refl)
exports_once (some json) = (_, refl)

module _ (to_json : Topic → Option Text) (topic : Topic) where
  created-AnswersOnce :
      (e : Error) → AnswersOnce (created to_json (topic, e)) ↔ (is_expected e ≡ true)
  created-AnswersOnce none = ((λ h. refl), λ h. exports_once (to_json topic))
  created-AnswersOnce (some e) = elim (Bool-cases (e == text "exists")) [
    | inl exists ↦ rw exists ((λ h. refl), λ h. (_, refl))
    | inr other ↦ rw other ((λ h. elim (two_answers _ (to_json topic) h) [ ]), λ h. cc)
  ]

  created-both :
      (e : Text)
      → (e == text "exists") ≡ false
      → created to_json (topic, some e)
        ≡ written (respond_err (generic_internal e) ∷ export_writes (to_json topic))
  created-both e other = rw other refl

-- Where the schema that the request names is found, or it names none: over every store, `TopicCreate`
-- leaves the store as `CreateTopic` does, and answers exactly once if and only if `CreateTopic` succeeds
-- or fails with "exists". After any other error it writes the error and then, as after a success, the
-- JSON form of the topic that `CreateTopic` returned with the error, or the error of exporting it.
pub topic_create_answers :
    {Raw S : Type 0} (z : Zulu) (lang : Lang Raw) (store : Store S) (project_uuid url_topic : Text)
    (to_json : Topic → Option Text) (now : Time) (schema_ref schema_uuid : Text) (s : S)
    → schema_uuid_of z lang store project_uuid url_topic schema_ref s ≡ some (inr schema_uuid)
    → let (s1, (topic, e)) = create_topic z lang store project_uuid url_topic schema_uuid now s in
      let (s2, outcome) =
        topic_create z lang store project_uuid url_topic to_json now (parsed schema_ref) s in
      (s2 ≡ s1)
      × (AnswersOnce outcome ↔ (is_expected e ≡ true))
      × ((m : Text)
          → e ≡ some m
          → (m == text "exists") ≡ false
          → outcome ≡ written (respond_err (generic_internal m) ∷ export_writes (to_json topic)))
unfolding topic_create
topic_create_answers z lang store project_uuid url_topic to_json now schema_ref schema_uuid s h =
    let r = create_topic z lang store project_uuid url_topic schema_uuid now s in
    rw h (
      refl,
      created-AnswersOnce to_json r.1.0 r.1.1,
      λ m failed other.
          ap (λ x. created to_json (r.1.0, x)) failed ∙ created-both to_json r.1.0 m other,
    )
