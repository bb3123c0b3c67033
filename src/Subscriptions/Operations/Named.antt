-- ===== src/Subscriptions/Operations/Named.antt =====
-- The operations on one subscription of a project, over the store in memory, as changes of the
-- subscriptions of that name.
use argo_messaging.Base.{
  Text, text, text_eq, Error, ◌==◌, Bool, true, false, ◌&&◌, ◌||◌, Bool-cases, inl, inr, Option,
  none, some, List, [], ◌∷◌, map, filter, find_first, option_list, is_empty, ◌≡◌, refl, ap, ◌∙◌,
  arith,
}
use argo_messaging.Base.Base64
use argo_messaging.Base.Int.{ℤ, pos, ltb_ℤ}
use argo_messaging.Base.Searches.{
  head?, has_any, find_first-filter, find_first-ext, Changes, modify_first-Changes,
  remove_first-Changes, filter-passes,
}
use argo_messaging.Stores.Models.{QSub}
use argo_messaging.Stores.Times.{Zulu}
use argo_messaging.Stores.Interface.{PushFields}
use argo_messaging.Stores.Mock.State.{Mock, not_found}
use argo_messaging.Stores.Mock.Instance.{mock}
use argo_messaging.Stores.Mock.Subs
use argo_messaging.Stores.Mock.Subs.Query
use argo_messaging.Projects.{get_name_by_uuid, has_items}
use argo_messaging.Subscriptions.{new_subscription}
use argo_messaging.Subscriptions.Operations.{
  find, find_decoded, found, has_sub, mod_ack, mod_sub_push, remove_sub, normal_period,
}

-- What `ModSubPush` makes of a stored subscription.
abbrev pub pushed : PushFields → QSub → QSub
pushed push s = record s {
  push_endpoint = push.push_endpoint;
  authorization_type = push.authorization_type;
  authorization_header = push.authorization_header;
  max_messages = push.max_messages;
  ret_policy = push.ret_policy;
  ret_period = push.ret_period;
  verification_hash = push.verification_hash;
  verified = push.verified;
}

module _ (z : Zulu) (project_uuid name : Text) where
  -- The subscriptions of that name in the project.
  abbrev pub subs_named : Mock → List QSub
  subs_named mk = filter (Subs.is_sub project_uuid name) mk.sub_list

  abbrev pub project_name : Mock → Text
  project_name = get_name_by_uuid (mock z) project_uuid

module _ (z : Zulu) (project_uuid name : Text) (named : is_empty name ≡ false) where
  abbrev seen : QSub → Bool
  seen s = s.project_uuid == project_uuid && true && s.name == name

  seen-is_sub : (s : QSub) → seen s ≡ Subs.is_sub project_uuid name s
  unfolding Subs.is_sub
  seen-is_sub s = ground arith

  found_first :
      (mk : Mock) → find_first seen mk.sub_list ≡ head? (subs_named z project_uuid name mk)
  found_first mk =
      find_first-ext seen (Subs.is_sub project_uuid name) seen-is_sub mk.sub_list
      ∙ find_first-filter (Subs.is_sub project_uuid name) mk.sub_list

  module _ (mk : Mock) (known : is_empty (project_name z project_uuid name mk) ≡ false) where
    -- `Find` gives the first of them.
    pub find-named : find z (mock z) project_uuid [] name [] (pos 0) mk ≡ (
      mk,
      (
        record {
          subscriptions =
              map
                (new_subscription z (project_name z project_uuid name mk))
                (option_list (head? (subs_named z project_uuid name mk)));
          next_page_token = Base64.encode [];
          total_size = pos 0;
        },
        none,
      ),
    )
    unfolding find find_decoded found mock Query.query_subs Query.may_see_sub Base64.decode is_empty
    find-named = rw (named, known, found_first mk) refl

    pub has_sub-named :
        has_sub z (mock z) project_uuid name mk ≡ (mk, has_any (subs_named z project_uuid name mk))
    unfolding has_sub
    has_sub-named = rw find-named (ap (λ b. (mk, b)) (items (subs_named z project_uuid name mk)))
      where
        items :
            (qs : List QSub)
            → (has_items (
                  map
                    (new_subscription z (project_name z project_uuid name mk))
                    (option_list (head? qs)))
                && true)
              ≡ has_any qs
        items [] = refl
        items (q ∷ qs) = refl

    -- A step that changes the subscriptions to `ss` alone.
    abbrev pub Becomes : Mock × Error → List QSub → Type 0
    Becomes (mk', e) qs =
        (e ≡ none)
        × ((ss : List QSub) × (mk' ≡ record mk { sub_list = ss })
            × (subs_named z project_uuid name mk' ≡ qs))

    becomes :
        (o : Option (List QSub)) (qs : List QSub)
        → Changes (Subs.is_sub project_uuid name) o qs
        → Becomes (Subs.set_subs o not_found mk) qs
    becomes o qs (ss, e, f) = rw e (refl, (ss, refl, f))

    still_named :
        (f : PushFields) (q : QSub)
        → subs_named z project_uuid name mk ≡ q ∷ []
        → Subs.is_sub project_uuid name (pushed f q) ≡ true
    unfolding Subs.is_sub
    still_named f q e = filter-passes (Subs.is_sub project_uuid name) mk.sub_list q e

    -- The operation of `ModAck`, if it succeeds.
    pub mod_ack-named :
        (ack : ℤ) (q : QSub)
        → subs_named z project_uuid name mk ≡ q ∷ []
        → (mod_ack z (mock z) project_uuid name ack mk).1 ≡ none
        → Becomes (mod_ack z (mock z) project_uuid name ack mk) (record q { ack = ack } ∷ [])
    unfolding mod_ack mock Subs.mod_ack Subs.is_sub
    mod_ack-named ack q e = elim (Bool-cases (ltb_ℤ ack (pos 0) || ltb_ℤ (pos 600) ack)) [
      | inl wrong ↦ rw wrong (λ h. cc)
      | inr right ↦
          rw (right, has_sub-named, e)
            (λ h. becomes _ _ (
              modify_first-Changes (Subs.is_sub project_uuid name) (λ s. record s { ack = ack })
                mk.sub_list q e (filter-passes (Subs.is_sub project_uuid name) mk.sub_list q e)))
    ]

    pub mod_ack-missing :
        (ack : ℤ)
        → subs_named z project_uuid name mk ≡ []
        → (e : Text) × (mod_ack z (mock z) project_uuid name ack mk ≡ (mk, some e))
    unfolding mod_ack
    mod_ack-missing ack e = elim (Bool-cases (ltb_ℤ ack (pos 0) || ltb_ℤ (pos 600) ack)) [
      | inl wrong ↦ rw wrong (text "wrong value", refl)
      | inr right ↦ rw (right, has_sub-named, e) (text "not found", refl)
    ]

    pub mod_sub_push-named :
        (f : PushFields) (q : QSub)
        → subs_named z project_uuid name mk ≡ q ∷ []
        → Becomes (mod_sub_push z (mock z) project_uuid name f mk) (pushed (normal_period f) q ∷ [])
    unfolding mod_sub_push mock Subs.mod_sub_push
    mod_sub_push-named f q e =
        rw (has_sub-named, e)
          (becomes _ _ (
            modify_first-Changes (Subs.is_sub project_uuid name) (pushed (normal_period f))
              mk.sub_list q e (still_named (normal_period f) q e)))

    pub remove_sub-named :
        (q : QSub)
        → subs_named z project_uuid name mk ≡ q ∷ []
        → Becomes (remove_sub z (mock z) project_uuid name mk) []
    unfolding remove_sub mock Subs.remove_sub
    remove_sub-named q e =
        rw (has_sub-named, e)
          (becomes _ _ (remove_first-Changes (Subs.is_sub project_uuid name) mk.sub_list q e))
