-- ===== src/Stores/Mock/Subs/Query.antt =====
-- The queries for subscriptions.
use argo_messaging.Base.{
  Text, ◌==◌, text_eq, Bool, true, ◌&&◌, Option, none, some, List, [], ◌∷◌, length, filter,
  is_empty, find_first, option_list, if◌then◌else◌, Error,
}
use argo_messaging.Base.Int.{ℤ, pos}
use argo_messaging.Stores.Models.{QSub}
use argo_messaging.Stores.Interface.{Page}
use argo_messaging.Stores.Mock.State.{Mock}
use argo_messaging.Stores.Mock.Acl.{in_acl, subscriptions, users_of}
use argo_messaging.Stores.Mock.Paging.{
  sort_desc, collect, page_limit, read_token, bad_token, from_token, finish_page, error_page,
}

-- The subscriptions of the project that the user may see; every user may, if none is named.
unfoldable pub may_see_sub : Text → Text → Mock → QSub → Bool
may_see_sub project_uuid user_uuid mk s =
    s.project_uuid == project_uuid
    && (if is_empty user_uuid then true else in_acl subscriptions s.name user_uuid mk)

-- The test of the loop that fills a page: where there is no token, the user is not asked about.
listed_sub : Text → Text → Text → ℤ → Mock → QSub → Bool
listed_sub project_uuid user_uuid page_token pg mk s =
    if is_empty page_token
    then s.project_uuid == project_uuid
    else from_token (λ (u : QSub). u.id) page_token pg s && may_see_sub project_uuid user_uuid mk s

-- The branch of `QuerySubs` for one name.
unfoldable pub named_subs : Text → Text → Text → Mock → Page QSub
named_subs project_uuid user_uuid name mk = record {
  items =
      option_list
        (find_first (λ s. may_see_sub project_uuid user_uuid mk s && s.name == name) mk.sub_list);
  total_size = pos 0;
  next_page_token = [];
  error = none;
}

-- The branch for a page, once the token is read; the list stays sorted.
subs_page : Text → Text → Text → ℤ → Option ℤ → Mock → Mock × Page QSub
unfolding listed_sub
subs_page project_uuid user_uuid page_token page_size none mk = (mk, error_page bad_token)
subs_page project_uuid user_uuid page_token page_size (some pg) mk =
    let sorted = sort_desc (λ (s : QSub). s.id) mk.sub_list in
    let counter = length (filter (may_see_sub project_uuid user_uuid mk) mk.sub_list) in
    let items =
      collect (listed_sub project_uuid user_uuid page_token pg mk) (page_limit page_size counter)
        sorted in
    (
      record mk { sub_list = sorted },
      finish_page (λ (s : QSub). s.id) page_size (pos counter) items,
    )

-- `QuerySubs`
unfoldable pub query_subs : Text → Text → Text → Text → ℤ → Mock → Mock × Page QSub
unfolding named_subs subs_page
query_subs project_uuid user_uuid name page_token page_size mk =
    if is_empty name
    then subs_page project_uuid user_uuid page_token page_size (read_token page_token) mk
    else (mk, named_subs project_uuid user_uuid name mk)

-- `QuerySubsByTopic`
unfoldable pub query_subs_by_topic : Text → Text → Mock → List QSub × Error
query_subs_by_topic project_uuid topic mk =
    (filter (λ s. project_uuid == s.project_uuid && s.topic == topic) mk.sub_list, none)

-- One copy of the subscription for each time that the user stands in its access list.
copies : Text → QSub → List Text → List QSub → List QSub
copies user s [] rest = rest
copies user s (u ∷ us) rest =
    let more = copies user s us rest in if u == user then s ∷ more else more

subs_by_acl : Text → Text → Mock → List QSub → List QSub
unfolding copies
subs_by_acl project_uuid user mk [] = []
subs_by_acl project_uuid user mk (s ∷ ss) =
    let rest = subs_by_acl project_uuid user mk ss in
    if project_uuid == s.project_uuid
    then copies user s (users_of (mk.subs_acl s.name)) rest
    else rest

-- `QuerySubsByACL`
unfoldable pub query_subs_by_acl : Text → Text → Mock → List QSub × Error
unfolding subs_by_acl
query_subs_by_acl project_uuid user mk = (subs_by_acl project_uuid user mk mk.sub_list, none)
