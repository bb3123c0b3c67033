-- ===== src/Stores/Mock/Paging.antt =====
-- What `QueryTopics`, `QuerySubs` and `PaginatedQueryUsers` of the store in memory share: the list
-- sorted by descending `_id`, the loop that fills a page, and the token of the next page.
-- `sort.Slice` is modelled by an insertion sort; entries with one `_id` keep their order.
pub mod Order
pub mod Walk
use argo_messaging.Base.{
  ℕ, ◌-◌, Text, Error, ◌==◌, Bool, true, false, ◌&&◌, not, Option, none, some, List, [], ◌∷◌,
  is_empty, length, get_elem?, take, leb, ltb, if◌then◌else◌, text,
}
use argo_messaging.Base.Int.{ℤ, pos, ◌+ℤ◌, ◌-ℤ◌, int_eq, leb_ℤ, pos_part}
use argo_messaging.Base.Decimal.{format_int, parse_int}
use argo_messaging.Stores.Interface.{Page}

module _ {A : Type 0} (id : A → ℕ) where
  unfoldable pub insert_desc : A → List A → List A
  insert_desc x [] = x ∷ []
  insert_desc x (y ∷ ys) =
      let rest = insert_desc x ys in if ltb (id x) (id y) then y ∷ rest else x ∷ y ∷ ys

  -- `sort.Slice(list, func(i, j) bool { return list[i].ID > list[j].ID })`
  unfoldable pub sort_desc : List A → List A
  sort_desc [] = []
  sort_desc (x ∷ xs) = insert_desc x (sort_desc xs)

-- The loop that fills a page with the elements that are listed; it stops where `limit` has come to 0,
-- so a negative limit does not stop it.
unfoldable pub collect : {A : Type 0} → (A → Bool) → ℤ → List A → List A
collect listed limit [] = []
collect listed limit (x ∷ xs) = elim (limit == pos 0) [
  | true ↦ []
  | false ↦ elim (listed x) [
    | true ↦ x ∷ collect listed (limit -ℤ pos 1) xs
    | false ↦ collect listed limit xs
  ]
]

-- `limit`
abbrev pub page_limit : ℤ → ℕ → ℤ
page_limit page_size counter = if page_size == pos 0 then pos counter else page_size +ℤ pos 1

-- `strconv.Atoi(pageToken)`, where there is a token.
unfoldable pub read_token : Text → Option ℤ
read_token page_token = if is_empty page_token then some (pos 0) else parse_int page_token

abbrev pub bad_token : Text
bad_token = text "strconv.Atoi"

module _ {A : Type 0} (id : A → ℕ) where
  -- `sub.ID.(int) <= pg`, tested only where there is a token.
  abbrev pub from_token : Text → ℤ → A → Bool
  from_token page_token pg x = if is_empty page_token then true else leb_ℤ (pos (id x)) pg

  -- `strconv.Itoa(items[pageSize].ID.(int))`; there is such an element where this is called.
  abbrev token_at : List A → ℤ → Text
  token_at items page_size = elim (get_elem? items (pos_part page_size)) [
    | some x ↦ format_int (pos (id x))
    | none ↦ []
  ]

  -- What is returned: an element too many is dropped, and its `_id` is the next token.
  unfoldable pub finish_page : ℤ → ℤ → List A → Page A
  finish_page page_size total items =
      if ltb 0 (length items) && pos (length items) == page_size +ℤ pos 1
      then record {
        items = take (length items - 1) items;
        total_size = total;
        next_page_token = token_at items page_size;
        error = none;
      }
      else record { items = items; total_size = total; next_page_token = []; error = none }

abbrev pub error_page : {A : Type 0} → Text → Page A
error_page message = record {
  items = [];
  total_size = pos 0;
  next_page_token = [];
  error = some message;
}
