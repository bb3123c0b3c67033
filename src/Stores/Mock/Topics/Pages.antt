-- ===== src/Stores/Mock/Topics/Pages.antt =====
-- The pages of `QueryTopics`, one after the other.
use argo_messaging.Base.{
  ℕ, zero, suc, ◌<◌, ◌^◌, Text, text_eq, ◌==◌, true, ◌&&◌, ◌≡◌, refl, sym, ◌∙◌, ap, some, List, [],
  ◌∷◌, ◌++◌, All, filter, take, drop, length, length-drop, if◌then◌else◌, arith, inl, inr, ◌↔◌, In,
  In-filter, List-cases, is_empty,
}
use mathlib.Core.List.{append_assoc}
use mathlib.Core.Path.{subst}
use argo_messaging.Base.Int.{ℤ, pos, ◌+ℤ◌, int_eq}
use argo_messaging.Base.Decimal.{format_int}
use argo_messaging.Stores.Models.{QTopic}
use argo_messaging.Stores.Interface.{Page}
use argo_messaging.Stores.Mock.State.{Mock}
use argo_messaging.Stores.Mock.Acl.{in_acl}
use argo_messaging.Stores.Mock.Paging.{sort_desc, read_token, from_token, finish_page}
use argo_messaging.Stores.Mock.Paging.Order.{
  collect-take, IsDescending, HasDistinctIds, sort_desc-IsDescending, sort_desc_of_IsDescending,
  All-sort_desc, All-filter, filter-IsDescending, In-sort_desc,
}
use argo_messaging.Stores.Mock.Paging.Walk.{
  Starts, page_of, finish_page-take, filter_first, filter_next, read_token-format_int,
  token_not_empty, take-drop, read_token-nothing,
}
use argo_messaging.Stores.Mock.Topics.{may_see_topic, topics_page, query_topics}

abbrev id_of : QTopic → ℕ
id_of t = t.id

-- A page, and what is asked for where it has a next token.
abbrev follow : (Text → Mock → List QTopic) → Mock × Page QTopic → List QTopic
follow more (mk, page) =
    page.items ++ (if is_empty page.next_page_token then [] else more page.next_page_token mk)

-- A client that asks for page after page, until there is no next token.
unfoldable pub topic_pages : ℕ → Text → Text → ℕ → Text → Mock → List QTopic
topic_pages zero project_uuid user_uuid k token mk = []
topic_pages (suc n) project_uuid user_uuid k token mk =
    follow (topic_pages n project_uuid user_uuid k)
      (query_topics project_uuid user_uuid [] token (pos k) mk)

-- The topics that the user may see, in the order of the list.
abbrev pub visible : Text → Text → Mock → List QTopic
visible project_uuid user_uuid mk =
    filter (may_see_topic project_uuid user_uuid mk) (sort_desc id_of mk.topic_list)

limit :
    (k counter : ℕ) → 0 < k → (if pos k == pos 0 then pos counter else pos k +ℤ pos 1) ≡ pos (suc k)
unfolding ◌+ℤ◌
limit k counter h = ground arith

module _ (project_uuid user_uuid : Text) (k : ℕ) (some_size : 0 < k) where
  -- One page, where its token denotes the place from which `rest` is still to be listed.
  collected :
      (mk : Mock) (token : Text) (pg : ℤ) (pre rest : List QTopic)
      → IsDescending id_of (sort_desc id_of mk.topic_list)
      → visible project_uuid user_uuid mk ≡ pre ++ rest
      → All (λ t. id_of t < 2 ^ 63) rest
      → Starts id_of token pg pre rest
      → filter
          (λ t. from_token id_of token pg t && may_see_topic project_uuid user_uuid mk t)
          (sort_desc id_of mk.topic_list)
        ≡ rest
  collected mk token pg pre [] d v small (e, p) = rw e (
      filter_first id_of (may_see_topic project_uuid user_uuid mk) pg _ ∙ (v ∙ ap (λ l. l ++ []) p))
  collected mk token pg pre (t ∷ rest) d v small (inl (e, p)) = rw e (
      filter_first id_of (may_see_topic project_uuid user_uuid mk) pg _
      ∙ (v ∙ ap (λ l. l ++ (t ∷ rest)) p))
  collected mk token pg pre (t ∷ rest) d v small (inr (e, p)) =
      rw (e, p)
        (filter_next id_of (may_see_topic project_uuid user_uuid mk) t pre rest _ small.0 d v)

  abbrev sorted : Mock → Mock
  sorted mk = record mk { topic_list = sort_desc id_of mk.topic_list }

  abbrev total_of : Mock → ℤ
  total_of mk = pos (length (filter (may_see_topic project_uuid user_uuid mk) mk.topic_list))

  query_topics-page :
      (mk : Mock) (token : Text) (pg : ℤ) (pre rest : List QTopic)
      → IsDescending id_of (sort_desc id_of mk.topic_list)
      → visible project_uuid user_uuid mk ≡ pre ++ rest
      → All (λ t. id_of t < 2 ^ 63) rest
      → Starts id_of token pg pre rest
      → read_token token ≡ some pg
      → query_topics project_uuid user_uuid [] token (pos k) mk
        ≡ (sorted mk, page_of id_of k (total_of mk) rest)
  unfolding query_topics topics_page is_empty
  query_topics-page mk token pg pre rest d v small starts read =
      rw (read, limit k _ some_size, collect-take _ (suc k) (sort_desc id_of mk.topic_list))
        (ap (λ page. (sorted mk, page))
          (ap (λ l. finish_page id_of (pos k) (total_of mk) (take (suc k) l))
              (collected mk token pg pre rest d v small starts)
            ∙ finish_page-take id_of k (total_of mk) rest some_size))

  All-drop : (P : QTopic → Type 0) (n : ℕ) (xs : List QTopic) → All P xs → All P (drop n xs)
  All-drop P zero xs h = h
  All-drop P (suc n) [] h = h
  All-drop P (suc n) (x ∷ xs) h = All-drop P n xs h.1

  visible-sorted :
      (mk : Mock)
      → IsDescending id_of (sort_desc id_of mk.topic_list)
      → visible project_uuid user_uuid (sorted mk) ≡ visible project_uuid user_uuid mk
  unfolding may_see_topic in_acl
  visible-sorted mk d =
      ap (filter (may_see_topic project_uuid user_uuid mk)) (sort_desc_of_IsDescending id_of _ d)

  -- The pages from a token on list all that is still to be listed.
  pages_from :
      (n : ℕ) (mk : Mock) (token : Text) (pg : ℤ) (pre rest : List QTopic)
      → IsDescending id_of (sort_desc id_of mk.topic_list)
      → visible project_uuid user_uuid mk ≡ pre ++ rest
      → All (λ t. id_of t < 2 ^ 63) rest
      → Starts id_of token pg pre rest
      → read_token token ≡ some pg
      → length rest < n
      → topic_pages n project_uuid user_uuid k token mk ≡ rest
  unfolding topic_pages is_empty
  pages_from zero mk token pg pre rest d v small starts read fuel = absurd (omega arith)
  pages_from (suc n) mk token pg pre rest d v small starts read fuel =
      let more = topic_pages n project_uuid user_uuid k in
      ap (follow more) (query_topics-page mk token pg pre rest d v small starts read)
      ∙ elim (List-cases (drop k rest)) [
        | inl all ↦
            let whole : take k rest ++ [] ≡ rest =
              ap (λ l. take k rest ++ l) (sym all) ∙ take-drop k rest in
            rw all whole
        | inr (t, ts, e) ↦
            let here : All (λ t. id_of t < 2 ^ 63) (t ∷ ts) =
              subst (All (λ t. id_of t < 2 ^ 63)) e (All-drop _ k rest small) in
            let whole : take k rest ++ (t ∷ ts) ≡ rest =
              ap (λ l. take k rest ++ l) (sym e) ∙ take-drop k rest in
            let split : pre ++ rest ≡ pre ++ take k rest ++ (t ∷ ts) =
              sym (append_assoc pre (take k rest) (t ∷ ts) ∙ ap (λ l. pre ++ l) whole) in
            let fewer : length (t ∷ ts) < n =
              omega (arith, ap (λ l. length l) e, length-drop k rest) in
            rw (e, token_not_empty (id_of t) here.0)
              (ap (λ l. take k rest ++ l)
                  (pages_from n (sorted mk) (format_int (pos (id_of t))) (pos (id_of t))
                    (pre ++ take k rest) (t ∷ ts) (rw (sort_desc_of_IsDescending id_of _ d) d)
                    (visible-sorted mk d ∙ (v ∙ split)) here (inr (refl, refl))
                    (read_token-format_int (id_of t) here.0) fewer)
                ∙ whole)
      ]

  -- A client that asks for pages of `k` topics, from the first on and until there is no next token,
  -- gets each topic of the project that the user may see exactly once, in the order of descending
  -- `_id`: the topics have different `_id`s below 2^63, pages are not empty, and the client asks more
  -- often than there are topics to be seen.
  pub topic_pages_lem :
      (mk : Mock) (n : ℕ)
      → HasDistinctIds id_of mk.topic_list
      → All (λ t. t.id < 2 ^ 63) mk.topic_list
      → length (visible project_uuid user_uuid mk) < n
      → IsDescending id_of (topic_pages n project_uuid user_uuid k [] mk)
        × ((t : QTopic)
            → In t (topic_pages n project_uuid user_uuid k [] mk)
              ↔ (In t mk.topic_list × (may_see_topic project_uuid user_uuid mk t ≡ true)))
  topic_pages_lem mk n distinct small fuel =
      let d = sort_desc-IsDescending id_of mk.topic_list distinct in
      let small_left =
        All-filter id_of _ (may_see_topic project_uuid user_uuid mk) (sort_desc id_of mk.topic_list)
          (All-sort_desc id_of _ mk.topic_list small) in
      let all =
        pages_from n mk [] (pos 0) [] (visible project_uuid user_uuid mk) d refl small_left
          (starts (visible project_uuid user_uuid mk)) read_token-nothing fuel in
      rw all (
        filter-IsDescending id_of (may_see_topic project_uuid user_uuid mk)
            (sort_desc id_of mk.topic_list) d,
        λ t.
            let f =
              In-filter (may_see_topic project_uuid user_uuid mk) t
                (sort_desc id_of mk.topic_list) in
            let g = In-sort_desc id_of t mk.topic_list in
            ((λ i. (g.0 (f.0 i).0, (f.0 i).1)), λ i. f.1 (g.1 i.0, i.1)),
      )
    where
      starts : (ts : List QTopic) → Starts id_of [] (pos 0) [] ts
      starts [] = (refl, refl)
      starts (t ∷ ts) = inl (refl, refl)
