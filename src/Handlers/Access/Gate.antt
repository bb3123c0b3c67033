-- ===== src/Handlers/Access/Gate.antt =====
-- Which requests reach their handler.
use argo_messaging.Base.{
  Text, text, ◌==◌, text_eq, Bool, true, false, ◌&&◌, ◌||◌, not, Option, none, some, List, [], ◌∷◌,
  ◌≡◌, refl, ◌∙◌, ap, is_empty, arith,
}
use argo_messaging.Validation.{valid_name}
use argo_messaging.Stores.Interface.{Store}
use argo_messaging.Projects.{get_uuid_by_name as project_uuid_by_name, has_items}
use argo_messaging.Auth.{authenticate, authorize}
use argo_messaging.Handlers.Access.{
  AuthOption, Request, extract_token, insert_key, sort_keys, invalid_key, url_var, Passage, pass,
  refuse, wrap_validate, is_service_token, wrap_authenticate, wrap_authorize, is_open, admit,
  and_then,
}

abbrev pub is_pass : {A : Type 0} → Passage A → Bool
is_pass (pass a) = true
is_pass (refuse e) = false

abbrev is_none : {A : Type 0} → Option A → Bool
is_none none = true
is_none (some a) = false

-- Every variable of the path is a valid name.
unfoldable pub all_names : List (Text × Text) → Bool
all_names [] = true
all_names ((key, value) ∷ vs) = valid_name value && all_names vs

invalid_key-insert_key :
    (x : Text × Text) (vs : List (Text × Text))
    → is_none (invalid_key (insert_key x vs)) ≡ (valid_name x.1 && is_none (invalid_key vs))
unfolding insert_key invalid_key
invalid_key-insert_key x [] = ground arith
invalid_key-insert_key x ((k, v) ∷ vs) = ground (arith, invalid_key-insert_key x vs)

invalid_key-sort_keys :
    (vs : List (Text × Text)) → is_none (invalid_key (sort_keys vs)) ≡ all_names vs
unfolding sort_keys all_names invalid_key
invalid_key-sort_keys [] = refl
invalid_key-sort_keys (x ∷ vs) =
    invalid_key-insert_key x (sort_keys vs)
    ∙ ap (λ b. valid_name x.1 && b) (invalid_key-sort_keys vs)

validated : (r : Request) → is_pass (wrap_validate r) ≡ all_names r.url_vars
unfolding wrap_validate
validated r = rw (← invalid_key-sort_keys r.url_vars) (ground arith)

module _ {S : Type 0} (store : Store S) (service_token : Text) (option : AuthOption) (s : S) where
  -- The project that a path names exists, or is about to be created.
  abbrev knows_project : Request → Bool
  knows_project r =
      r.route == text "projects:create"
      || is_empty (url_var (text "project") r.url_vars)
      || not (is_empty (project_uuid_by_name store (url_var (text "project") r.url_vars) s))

  -- The roles of the token's owner in that project.
  abbrev roles_of : Request → List Text
  roles_of r =
      (authenticate store (project_uuid_by_name store (url_var (text "project") r.url_vars) s)
        (extract_token option r) s).0

  abbrev pub has_access : Request → Bool
  has_access r =
      not (is_empty (extract_token option r))
      && knows_project r
      && (is_service_token service_token (extract_token option r)
          || (has_items (roles_of r) && authorize store r.route (roles_of r) s))

  authenticated :
      (r : Request)
      → is_pass (
          and_then
            (wrap_authenticate store service_token option s r)
            (wrap_authorize store service_token option s r))
        ≡ has_access r
  unfolding wrap_authenticate wrap_authorize
  authenticated r = ground arith

  -- A request reaches its handler exactly if every variable of its path is a valid name and either its
  -- route is one of the three that are open, or it carries a token, names no project that is not
  -- there unless it creates one, and the token is the service token or its owner has roles in the
  -- project of which one has access to the route.
  pub admit_lem :
      (r : Request)
      → is_pass (admit store service_token option s r)
        ≡ (all_names r.url_vars && (is_open r.route || has_access r))
  unfolding admit wrap_validate
  admit_lem r = rw (← invalid_key-sort_keys r.url_vars) (ground (arith, authenticated r))
