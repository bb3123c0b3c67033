-- ===== src/Stores/Mongo/Pages.antt =====
-- What `QuerySubs` and `QueryTopics` of the store in MongoDB share.
use argo_messaging.Base.{
  ℕ, ◌-◌, Text, text, text_eq, ◌==◌, Bool, ◌&&◌, Option, none, some, List, [], is_empty, length,
  get_elem?, take, leb, ltb, if◌then◌else◌,
}
use argo_messaging.Base.Int.{ℤ, pos, ◌+ℤ◌, ltb_ℤ, int_eq, wrap32}
use argo_messaging.Stores.Interface.{Page}
use argo_messaging.Stores.Mongo.{Driver, Db, Mongo, ◌>>=◌, pure, query}

-- `limit`, an int32: one more than the size of a page, or none.
abbrev pub limit_of : ℤ → ℤ
limit_of page_size = if ltb_ℤ (pos 0) page_size then wrap32 (page_size +ℤ pos 1) else pos 0

abbrev bad_object_id : Text → Text
bad_object_id token = text "Page token is not a valid bson ObjectId"

module _ {C : Type 0 → Type 0} (driver : Driver C) {D : Type 0} (id : D → ℕ)
    (docs : Db C → C D) where
  abbrev hex_of : Option D → Text
  hex_of (some d) = driver.hex (id d)
  hex_of none = []

  -- The page, from what was found: a document too many is dropped, and its `_id` is the next token.
  unfoldable pub finish : ℤ → ℕ → List D → Page D
  finish limit size items =
      if ltb 0 (length items) && pos (length items) == limit
      then record {
        items = take (length items - 1) items;
        total_size = wrap32 (pos size);
        next_page_token = hex_of (get_elem? items (length items - 1));
        error = none;
      }
      else record {
        items = items;
        total_size = wrap32 (pos size);
        next_page_token = [];
        error = none;
      }

  -- The selector of the page; `none` where the token is no ObjectId.
  unfoldable pub page_selector : (D → Bool) → (D → Text) → Text → Text → Option (D → Bool)
  page_selector base name_of name page_token =
      if is_empty page_token
      then some (if is_empty name then base else λ d. base d && name_of d == name)
      else elim (driver.object_id page_token) [
        | some last ↦ some (λ d. base d && leb (id d) last)
        | none ↦ none
      ]

  -- What follows the selector; the size is counted only where no name is given.
  select_page : (D → Bool) → Text → Text → ℤ → Option (D → Bool) → Mongo C (Page D)
  select_page base name page_token page_size none = pure (record {
    items = [];
    total_size = pos 0;
    next_page_token = [];
    error = some (bad_object_id page_token);
  })
  select_page base name page_token page_size (some selector) = do
    items ← query (λ db. driver.page id selector (limit_of page_size) (docs db))
    if is_empty name
        then (do
          size ← query (λ db. driver.count base (docs db))
          pure (finish (limit_of page_size) size items))
        else pure (record { items = items; total_size = pos 0; next_page_token = []; error = none })

  -- `base` selects the documents that the user may see.
  unfoldable pub query_page : (D → Bool) → (D → Text) → Text → Text → ℤ → Mongo C (Page D)
  unfolding select_page
  query_page base name_of name page_token page_size =
      select_page base name page_token page_size (page_selector base name_of name page_token)
