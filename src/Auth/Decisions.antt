-- ===== src/Auth/Decisions.antt =====
-- What a change of an access list means for `PerResource`, over the store in memory.
use argo_messaging.Base.{
  Text, text, text_eq, text_beq, text_beq_iff, ◌==◌, Bool, false, ◌||◌, some, List, map, contains,
  contains_iff, Distinct, ◌≡◌, refl, ap, if◌then◌else◌, arith,
}
use argo_messaging.Stores.Models.{QAcl}
use argo_messaging.Stores.Times.{Zulu}
use argo_messaging.Stores.Mock.State.{Mock}
use argo_messaging.Stores.Mock.Instance.{mock}
use argo_messaging.Stores.Mock.Acl
use argo_messaging.Stores.Mock.Acl.{append_unique_values, in_acl, users_of}
use argo_messaging.Stores.Mock.Acl.Values.{append_unique_values_lem}
use argo_messaging.Auth.{per_resource, mod_acl, append_to_acl, get_uuid_by_name}

module _ (z : Zulu) (project name : Text) (users : List Text) (mk : Mock) where
  -- The uuids of the named users.
  abbrev pub uuids : List Text
  uuids = map (λ n. get_uuid_by_name (mock z) n mk) users

  abbrev pub allowed : Text → Text → Text → Mock → Bool
  allowed kind other user state = per_resource (mock z) project kind other user state

  pub allowed-topics :
      (other user : Text) (state : Mock)
      → allowed (text "topics") other user state ≡ contains user (users_of (state.topics_acl other))
  unfolding per_resource mock Acl.exists_in_acl in_acl text_beq
  allowed-topics other user state = ground arith

  allowed-subscriptions :
      (other user : Text) (state : Mock)
      → allowed (text "subscriptions") other user state
        ≡ contains user (users_of (state.subs_acl other))
  unfolding per_resource mock Acl.exists_in_acl in_acl text_beq
  allowed-subscriptions other user state = ground arith

  pub modified :
      (q : QAcl)
      → mk.topics_acl name ≡ some q
      → (mod_acl (mock z) project (text "topics") name users mk).0 ≡ Acl.set_topic_acl name uuids mk
  unfolding mod_acl mock Acl.mod_acl text_beq
  modified q e = rw e refl

  appended :
      (q : QAcl)
      → mk.topics_acl name ≡ some q
      → (append_to_acl (mock z) project (text "topics") name users mk).0
        ≡ Acl.set_topic_acl name (append_unique_values q.acl uuids) mk
  unfolding append_to_acl mock Acl.append_to_acl text_beq
  appended q e = rw e refl

  contains-append_unique_values :
      (user : Text) (acl vs : List Text)
      → Distinct acl
      → contains user (append_unique_values acl vs) ≡ (contains user acl || contains user vs)
  contains-append_unique_values user acl vs d = ground (
    arith,
    (append_unique_values_lem acl vs d).1 user,
    contains_iff user (append_unique_values acl vs),
    contains_iff user acl,
    contains_iff user vs,
  )

  -- Where the topic has an access list without duplicates: after `ModACL` exactly the named users have
  -- access to the topic, after `AppendToACL` those and the ones before. Access to every other topic and
  -- to every subscription is as before.
  pub acl_changes :
      (q : QAcl)
      → mk.topics_acl name ≡ some q
      → Distinct q.acl
      → (other user : Text)
      → let modified = (mod_acl (mock z) project (text "topics") name users mk).0 in
        let appended = (append_to_acl (mock z) project (text "topics") name users mk).0 in
        (allowed (text "topics") other user modified
          ≡ (if name == other then contains user uuids else allowed (text "topics") other user mk))
        × (allowed (text "topics") other user appended ≡ (
            allowed (text "topics") other user mk
            || (if name == other then contains user uuids else false)))
        × (allowed (text "subscriptions") other user modified
            ≡ allowed (text "subscriptions") other user mk)
        × (allowed (text "subscriptions") other user appended
            ≡ allowed (text "subscriptions") other user mk)
  acl_changes q e d other user =
      rw (modified q e, appended q e)
        (simp (allowed-topics, allowed-subscriptions)
          (
            ground arith,
            ground (
              arith,
              text_beq_iff name other,
              contains-append_unique_values user q.acl uuids d,
              ap (λ n. users_of (mk.topics_acl n)),
              e,
            ),
            refl,
            refl,
          ))
