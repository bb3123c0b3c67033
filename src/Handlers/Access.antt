-- ===== src/Handlers/Access.antt =====
-- `WrapValidate`, `WrapAuthenticate` and `WrapAuthorize` of handlers/handlers.go, the extraction of a
-- token from a request, and the order in which routing.go puts them before a handler.
pub mod Gate
use argo_messaging.Base.{
  ℕ, Text, text, Error, ◌==◌, text_eq, Bool, true, false, ◌&&◌, ◌||◌, not, Option, none, some, List,
  [], ◌∷◌, ltb, is_empty, if◌then◌else◌,
}
use argo_messaging.Validation.{valid_name}
use argo_messaging.Stores.Interface.{Store}
use argo_messaging.Projects.{get_uuid_by_name as project_uuid_by_name, has_items}
use argo_messaging.Auth.{authenticate, authorize, get_uuid_by_name}
use argo_messaging.Handlers.{ApiError, invalid_name, unauthorized, forbidden, not_found}

-- `AuthOption` of config/config.go
pub data AuthOption : Type 0 where
  url_key : AuthOption
  header_key : AuthOption
  url_key_and_header_key : AuthOption

-- A request, with the variables of its path as pairs of a key and a value.
pub record Request : Type 0 where
  pub header : Text  -- x-api-key
  pub key : Text  -- the parameter `key` of the url
  pub url_vars : List (Text × Text)
  pub route : Text

-- The function that `GetRequestTokenExtractStrategy` picks.
unfoldable pub extract_token : AuthOption → Request → Text
extract_token header_key r = r.header
extract_token url_key r = r.key
extract_token url_key_and_header_key r = if is_empty r.header then r.key else r.header

-- `sort.Strings` on the keys
unfoldable pub comes_before : Text → Text → Bool
comes_before [] t = true
comes_before (c ∷ s) [] = false
comes_before (c ∷ s) (d ∷ t) =
    let rest = comes_before s t in if ltb c d then true else if ltb d c then false else rest

unfoldable pub insert_key : Text × Text → List (Text × Text) → List (Text × Text)
insert_key x [] = x ∷ []
insert_key x (y ∷ ys) =
    let rest = insert_key x ys in if comes_before x.0 y.0 then x ∷ y ∷ ys else y ∷ rest

unfoldable pub sort_keys : List (Text × Text) → List (Text × Text)
sort_keys [] = []
sort_keys (x ∷ xs) = insert_key x (sort_keys xs)

-- The first key whose value is no valid name.
unfoldable pub invalid_key : List (Text × Text) → Option Text
invalid_key [] = none
invalid_key ((key, value) ∷ vs) =
    let rest = invalid_key vs in if valid_name value then rest else some key

-- `urlVars[key]`
unfoldable pub url_var : Text → List (Text × Text) → Text
url_var key [] = []
url_var key ((k, v) ∷ vs) = let rest = url_var key vs in if k == key then v else rest

-- What the handler finds in the context of its request.
pub record Identity : Type 0 where
  pub roles : List Text
  pub user : Text
  pub user_uuid : Text
  pub project_uuid : Text

-- A wrapper hands the request on, or ends it with an error.
pub data Passage (A : Type 0) : Type 0 where
  pass : A → Passage A
  refuse : ApiError → Passage A

abbrev pub and_then : {A B : Type 0} → Passage A → (A → Passage B) → Passage B
and_then (pass a) f = f a
and_then (refuse e) f = refuse e

-- `WrapValidate`
unfoldable pub wrap_validate : Request → Passage Request
wrap_validate r = elim (invalid_key (sort_keys r.url_vars)) [
  | none ↦ pass r
  | some key ↦ refuse (invalid_name key)
]

-- `serviceToken != "" && serviceToken == apiKey`
unfoldable pub is_service_token : Text → Text → Bool
is_service_token service_token api_key = not (is_empty service_token) && service_token == api_key

-- The routes that skip authentication and authorization.
unfoldable pub is_open : Text → Bool
is_open route =
    route == text "ams:healthStatus"
    || route == text "users:profile"
    || route == text "version:list"

abbrev nobody : Identity
nobody = record { roles = []; user = []; user_uuid = []; project_uuid = [] }

module _ {S : Type 0} (store : Store S) (service_token : Text) (option : AuthOption) (s : S) where
  -- `Authenticate` has given roles and a user name.
  abbrev identified : Text → List Text × Text → Passage Identity
  identified project_uuid (roles, user) =
      if has_items roles
      then pass (record {
        roles = roles;
        user = user;
        user_uuid = get_uuid_by_name store user s;
        project_uuid = project_uuid;
      })
      else refuse unauthorized

  -- `WrapAuthenticate`
  unfoldable pub wrap_authenticate : Request → Passage Identity
  wrap_authenticate r =
      let api_key = extract_token option r in
      let project_name = url_var (text "project") r.url_vars in
      let project_uuid = project_uuid_by_name store project_name s in
      if is_empty api_key
      then refuse unauthorized
      else if not (r.route == text "projects:create")
          && (not (is_empty project_name) && is_empty project_uuid)
      then refuse (not_found (text "project"))
      else if is_service_token service_token api_key
      then pass (record {
        roles = text "service_admin" ∷ [];
        user = [];
        user_uuid = [];
        project_uuid = project_uuid;
      })
      else identified project_uuid (authenticate store project_uuid api_key s)

  -- `WrapAuthorize`
  unfoldable pub wrap_authorize : Request → Identity → Passage Identity
  wrap_authorize r who =
      if is_service_token service_token (extract_token option r)
      then pass who
      else if authorize store r.route who.roles s
      then pass who
      else refuse forbidden

  -- The wrappers in the order of `NewRouting`.
  unfoldable pub admit : Request → Passage Identity
  admit r = and_then (wrap_validate r) (λ r.
      if is_open r.route then pass nobody else and_then (wrap_authenticate r) (wrap_authorize r))
