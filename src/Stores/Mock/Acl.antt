-- ===== src/Stores/Mock/Acl.antt =====
-- The access lists of the store in memory: `ModACL`, `AppendToACL`, `RemoveFromACL`, `QueryACL`,
-- `ExistsInACL`.
pub mod Values
pub mod Removal
use argo_messaging.Base.{
  ℕ, zero, suc, ◌+◌, ◌-◌, Text, text, Error, Result, ok, err, panic, ◌==◌, text_eq, Bool, true,
  false, Option, none, some, List, [], ◌∷◌, ◌++◌, contains, if◌then◌else◌, leb, length, get_elem?,
  take, drop,
}
use argo_messaging.Stores.Models.{QAcl}
use argo_messaging.Stores.Mock.State.{Mock, map_insert, not_found}

-- `appendUniqueValues`
unfoldable pub append_unique_values : List Text → List Text → List Text
append_unique_values existing [] = existing
append_unique_values existing (v ∷ vs) =
    append_unique_values (if contains v existing then existing else existing ++ (v ∷ [])) vs

-- A slice: the array behind it, and how much of it the slice shows. All these slices start where
-- their array starts.
pub record Slice : Type 0 where
  pub array : List Text
  pub len : ℕ

-- `append(s[:i], s[i+1:]...)` in place: what stands after `i` moves down by one, and the array's last
-- shown cell keeps its value. `s[i+1:]` panics if `i + 1` is above the length.
unfoldable pub cut : Slice → ℕ → Result Slice
cut s i =
    if leb (suc i) s.len
    then ok (record {
      array =
          take i s.array
          ++ (take (s.len - suc i) (drop (suc i) s.array) ++ drop (s.len - 1) s.array);
      len = s.len - 1;
    })
    else panic

abbrev cut_if : Option Text → Text → Slice → ℕ → Result Slice
cut_if none value s i = panic
cut_if (some v) value s i = if v == value then cut s i else ok s

-- The loop of `removeSingleValue`: `range` fixed its bounds, `rounds` more of them, before the first
-- round, and reads the array, which `cut` changes in place.
remove_loop : ℕ → ℕ → Text → Slice → Result Slice
remove_loop zero i value s = ok s
remove_loop (suc rounds) i value s = elim (cut_if (get_elem? s.array i) value s i) [
  | ok s' ↦ remove_loop rounds (suc i) value s'
  | err e ↦ err e
  | panic ↦ panic
]

abbrev shown : Result Slice → Result (List Text)
shown (ok s) = ok (take s.len s.array)
shown (err e) = err e
shown panic = panic

-- `removeSingleValue`
unfoldable pub remove_single_value : List Text → Text → Result (List Text)
unfolding remove_loop cut
remove_single_value existing value =
    shown
      (remove_loop (length existing) 0 value (record { array = existing; len = length existing }))

-- `removeValues`
unfoldable pub remove_values : List Text → List Text → Result (List Text)
remove_values existing [] = ok existing
remove_values existing (v ∷ vs) = elim (remove_single_value existing v) [
  | ok rest ↦ remove_values rest vs
  | err e ↦ err e
  | panic ↦ panic
]

abbrev pub topics : Text
topics = text "topics"

abbrev pub subscriptions : Text
subscriptions = text "subscriptions"

abbrev pub wrong_resource_type : Text
wrong_resource_type = text "wrong resource type"

abbrev pub no_acl_found : Text
no_acl_found = text "no acl found"

-- `mk.TopicsACL[name] = acl` and `mk.SubsACL[name] = acl`
abbrev pub set_topic_acl : Text → List Text → Mock → Mock
set_topic_acl name acl mk = record mk {
  topics_acl = map_insert name (record { acl = acl }) mk.topics_acl;
}

abbrev pub set_sub_acl : Text → List Text → Mock → Mock
set_sub_acl name acl mk = record mk {
  subs_acl = map_insert name (record { acl = acl }) mk.subs_acl;
}

-- The list, if there is one; else the store as it was and an error.
abbrev if_exists : Option QAcl → (List Text → Mock) → Text → Mock → Mock × Error
if_exists (some q) change message mk = (change q.acl, none)
if_exists none change message mk = (mk, some message)

-- `ModACL`
unfoldable pub mod_acl : Text → Text → Text → List Text → Mock → Mock × Error
mod_acl project_uuid resource name acl mk =
    if resource == topics
    then if_exists (mk.topics_acl name) (λ _. set_topic_acl name acl mk) wrong_resource_type mk
    else if resource == subscriptions
    then if_exists (mk.subs_acl name) (λ _. set_sub_acl name acl mk) wrong_resource_type mk
    else (mk, some wrong_resource_type)

-- `AppendToACL`
unfoldable pub append_to_acl : Text → Text → Text → List Text → Mock → Mock × Error
append_to_acl project_uuid resource name acl mk =
    if resource == topics
    then if_exists (mk.topics_acl name)
        (λ old. set_topic_acl name (append_unique_values old acl) mk) no_acl_found mk
    else if resource == subscriptions
    then if_exists (mk.subs_acl name) (λ old. set_sub_acl name (append_unique_values old acl) mk)
        no_acl_found mk
    else (mk, some wrong_resource_type)

-- A list that a removal returned is stored.
abbrev pub store_removed : Result (List Text) → (List Text → Mock) → Result (Mock × Error)
store_removed (ok acl) change = ok (change acl, none)
store_removed (err e) change = err e
store_removed panic change = panic

abbrev if_exists_remove :
    Option QAcl → List Text → (List Text → Mock) → Mock → Result (Mock × Error)
if_exists_remove (some q) acl change mk = store_removed (remove_values q.acl acl) change
if_exists_remove none acl change mk = ok (mk, some no_acl_found)

-- `RemoveFromACL`
unfoldable pub remove_from_acl : Text → Text → Text → List Text → Mock → Result (Mock × Error)
remove_from_acl project_uuid resource name acl mk =
    if resource == topics
    then if_exists_remove (mk.topics_acl name) acl (λ rest. set_topic_acl name rest mk) mk
    else if resource == subscriptions
    then if_exists_remove (mk.subs_acl name) acl (λ rest. set_sub_acl name rest mk) mk
    else ok (mk, some wrong_resource_type)

abbrev acl_or_not_found : Option QAcl → Result QAcl
acl_or_not_found (some q) = ok q
acl_or_not_found none = err not_found

-- `QueryACL`
unfoldable pub query_acl : Text → Text → Text → Mock → Result QAcl
query_acl project_uuid resource name mk =
    if resource == topics
    then acl_or_not_found (mk.topics_acl name)
    else if resource == subscriptions
    then acl_or_not_found (mk.subs_acl name)
    else err not_found

-- The list at a missing key is empty.
abbrev pub users_of : Option QAcl → List Text
users_of (some q) = q.acl
users_of none = []

-- `existsInACL`, and the test of `ExistsInACL`
unfoldable pub in_acl : Text → Text → Text → Mock → Bool
in_acl resource resource_name user_uuid mk = contains user_uuid (
    if resource == subscriptions
    then users_of (mk.subs_acl resource_name)
    else if resource == topics
    then users_of (mk.topics_acl resource_name)
    else [])

-- `ExistsInACL`
unfoldable pub exists_in_acl : Text → Text → Text → Text → Mock → Error
unfolding in_acl
exists_in_acl project_uuid resource resource_name user_uuid mk =
    if in_acl resource resource_name user_uuid mk then none else some not_found
