-- ===== src/Handlers/Topics/Access.antt =====
-- `TopicModACL` over the store in memory.
use argo_messaging.Base.{
  Text, text, text_eq, text_beq, is_nil, Error, ◌==◌, Bool, true, false, not, ◌&&◌, none, some,
  List, [], ◌∷◌, any, filter, contains, ◌≡◌, refl, ◌∙◌, if◌then◌else◌, arith, Bool-cases, inl, inr,
}
use argo_messaging.Stores.Models.{QAcl, QUser}
use argo_messaging.Stores.Times.{Zulu}
use argo_messaging.Stores.Mock.State.{Mock}
use argo_messaging.Stores.Mock.Instance.{mock}
use argo_messaging.Stores.Mock.Acl
use argo_messaging.Stores.Mock.Users.{has_users}
use argo_messaging.Schemas.{Lang}
use argo_messaging.Auth.{are_valid_users, mod_acl}
use argo_messaging.Auth.Decisions.{uuids, allowed, allowed-topics, modified}
use argo_messaging.Handlers.{done, parsed}
use argo_messaging.Handlers.Topics.{topic_mod_acl, with_users}

-- A user of that name is in the store.
abbrev pub known : List QUser → Text → Bool
known users n = any (λ (u : QUser). n == u.name) users

-- All of them are.
unfoldable pub all_known : List QUser → List Text → Bool
all_known us [] = true
all_known us (n ∷ ns) = known us n && all_known us ns

abbrev missing : List QUser → List Text → List Text
missing us ns = filter (λ n. not (known us n)) ns

abbrev is_none_left : List Text → Bool
is_none_left [] = true
is_none_left (n ∷ ns) = false

missing-all_known :
    (us : List QUser) (ns : List Text) → is_none_left (missing us ns) ≡ all_known us ns
unfolding all_known
missing-all_known us [] = refl
missing-all_known us (n ∷ ns) = elim (Bool-cases (known us n)) [
  | inl k ↦ rw k (missing-all_known us ns)
  | inr k ↦ rw k refl
]

none_left : (m : List Text) → elim m [ [] ↦ true | _ ↦ false ] ≡ is_none_left m
none_left [] = refl
none_left (n ∷ ns) = refl

module _ (z : Zulu) (project name : Text) (users : List Text) (mk : Mock) where
  has_users-all_known : ((mock z).has_users project users mk).0 ≡ all_known mk.user_list users
  unfolding mock has_users
  has_users-all_known =
      none_left (missing mk.user_list users) ∙ missing-all_known mk.user_list users

  error_of_users :
      is_nil (are_valid_users (mock z) project users mk).1 ≡ all_known mk.user_list users
  unfolding are_valid_users
  error_of_users = elim (Bool-cases (all_known mk.user_list users)) [
    | inl h ↦ rw (has_users-all_known, h) refl
    | inr h ↦ rw (has_users-all_known, h) refl
  ]

  module _ (q : QAcl) (e : mk.topics_acl name ≡ some q) where
    modifies : (mod_acl (mock z) project (text "topics") name users mk).1 ≡ none
    unfolding mod_acl mock Acl.mod_acl text_beq
    modifies = rw e refl

    access_after :
        (other user : Text)
        → allowed z project name users mk
            (text "topics")
            other
            user
            (mod_acl (mock z) project (text "topics") name users mk).0
          ≡ (if name == other
              then contains user (uuids z project name users mk)
              else allowed z project name users mk (text "topics") other user mk)
    access_after other user =
        rw (modified z project name users mk q e)
          (simp (allowed-topics z project name users mk) (ground arith))

    of_error :
        {Raw : Type 0} (lang : Lang Raw) (r : Error)
        → let (mk', outcome) = with_users z lang (mock z) project name users r mk in
          (is_nil r ≡ true
            → (outcome ≡ done [])
              × (mk' ≡ (mod_acl (mock z) project (text "topics") name users mk).0))
          × (is_nil r ≡ false → (mk' ≡ mk) × ¬ (outcome ≡ done []))
    of_error lang none = rw modifies ((λ h. (refl, refl)), λ h. cc)
    of_error lang (some x) = ((λ h. cc), λ h. (refl, λ o. cc))

    -- Where the topic has an access list: if the store has a user of every name in the request,
    -- `TopicModACL` answers with success, and then exactly the users of these names have access to the
    -- topic, while access to every other topic is as before. If a name is unknown it does not answer
    -- with success, and nothing changes.
    pub topic_mod_acl_lem :
        {Raw : Type 0} (lang : Lang Raw)
        → let (mk', outcome) = topic_mod_acl z lang (mock z) project name (parsed users) mk in
          (all_known mk.user_list users ≡ true
            → (outcome ≡ done [])
              × ((other user : Text)
                  → allowed z project name users mk (text "topics") other user mk' ≡ (
                      if name == other
                      then contains user (uuids z project name users mk)
                      else allowed z project name users mk (text "topics") other user mk)))
          × (all_known mk.user_list users ≡ false → (mk' ≡ mk) × ¬ (outcome ≡ done []))
    unfolding topic_mod_acl
    topic_mod_acl_lem lang =
        let (good, bad) = of_error lang (are_valid_users (mock z) project users mk).1 in
        (
          (λ h.
              let (o, m) = good (error_of_users ∙ h) in
              (o, λ other user. rw m (access_after other user))),
          λ h. bad (error_of_users ∙ h),
        )
