-- ===== src/Stores/Mock/Paging/Walk.antt =====
-- Pages of a sorted list: each continues where the one before it ended.
use argo_messaging.Base.{
  ℕ, zero, suc, ◌-◌, ◌≤◌, ◌<◌, ◌^◌, Text, text_eq, Bool, false, ◌&&◌, ◌≡◌, refl, sym, ◌∙◌, ap, none,
  some, List, [], ◌∷◌, ◌++◌, filter, filter-filter, take, drop, length, get_elem?, leb, arith, inl,
  inr, ◌⊎◌, Bool-cases, is_empty,
}
use argo_messaging.Base.Int.{ℤ, pos, ◌+ℤ◌, int_eq}
use argo_messaging.Base.Decimal.{format_int, parse_int, parse_int-format_int}
use argo_messaging.Stores.Interface.{Page}
use argo_messaging.Stores.Mock.Paging.{read_token, from_token, finish_page}
use argo_messaging.Stores.Mock.Paging.Order.{IsDescending, filter-IsDescending, filter_from}

not_empty : (t : Text) (a : ℤ) → parse_int t ≡ some a → is_empty t ≡ false
unfolding parse_int is_empty
not_empty [] a h = cc
not_empty (c ∷ t) a h = refl

pub token_not_empty : (n : ℕ) → n < 2 ^ 63 → is_empty (format_int (pos n)) ≡ false
token_not_empty n h =
    not_empty (format_int (pos n)) (pos n) (parse_int-format_int (pos n) (h, omega arith))

-- A token of a page is read back.
pub read_token-format_int : (n : ℕ) → n < 2 ^ 63 → read_token (format_int (pos n)) ≡ some (pos n)
unfolding read_token
read_token-format_int n h = rw (token_not_empty n h) (parse_int-format_int (pos n) (h, omega arith))

pub read_token-nothing : read_token [] ≡ some (pos 0)
unfolding read_token is_empty
read_token-nothing = refl

module _ {A : Type 0} where
  take_all : (n : ℕ) (xs : List A) → length xs ≤ n → take n xs ≡ xs
  take_all zero [] h = refl
  take_all zero (x ∷ xs) h = absurd (omega arith)
  take_all (suc n) [] h = refl
  take_all (suc n) (x ∷ xs) h = ap (λ l. x ∷ l) (take_all n xs (omega arith))

  drop_all : (n : ℕ) (xs : List A) → length xs ≤ n → drop n xs ≡ []
  drop_all zero [] h = refl
  drop_all zero (x ∷ xs) h = absurd (omega arith)
  drop_all (suc n) [] h = refl
  drop_all (suc n) (x ∷ xs) h = drop_all n xs (omega arith)

  length-take : (n : ℕ) (xs : List A) → n ≤ length xs → length (take n xs) ≡ n
  length-take zero xs h = refl
  length-take (suc n) [] h = absurd (omega arith)
  length-take (suc n) (x ∷ xs) h = ap suc (length-take n xs (omega arith))

  take-take : (n : ℕ) (xs : List A) → take n (take (suc n) xs) ≡ take n xs
  take-take zero xs = refl
  take-take (suc n) [] = refl
  take-take (suc n) (x ∷ xs) = ap (λ l. x ∷ l) (take-take n xs)

  pub take-drop : (n : ℕ) (xs : List A) → take n xs ++ drop n xs ≡ xs
  take-drop zero xs = refl
  take-drop (suc n) [] = refl
  take-drop (suc n) (x ∷ xs) = ap (λ l. x ∷ l) (take-drop n xs)

  -- The element after `n` others.
  next_elem :
      (n : ℕ) (xs : List A)
      → n < length xs
      → (v : A) × (vs : List A) × (drop n xs ≡ v ∷ vs) × (get_elem? (take (suc n) xs) n ≡ some v)
  next_elem n [] h = absurd (omega arith)
  next_elem zero (x ∷ xs) h = (x, xs, refl, refl)
  next_elem (suc n) (x ∷ xs) h = next_elem n xs (omega arith)

module _ {A : Type 0} (id : A → ℕ) where
  -- The token of the page that begins with these entries.
  abbrev pub token_of : List A → Text
  token_of [] = []
  token_of (v ∷ vs) = format_int (pos (id v))

  -- The token denotes these entries, after those before them: it is empty where there are none
  -- before, or that of the first of them.
  abbrev pub Starts : Text → ℤ → List A → List A → Type 0
  Starts token pg before [] = (token ≡ []) × (before ≡ [])
  Starts token pg before (v ∷ vs) =
      ((token ≡ []) × (before ≡ [])) ⊎ ((token ≡ format_int (pos (id v))) × (pg ≡ pos (id v)))

  -- A page of `k` entries.
  abbrev pub page_of : ℕ → ℤ → List A → Page A
  page_of k total rest = record {
    items = take k rest;
    total_size = total;
    next_page_token = token_of (drop k rest);
    error = none;
  }

  finish_full :
      (k : ℕ) (total : ℤ) (items : List A) (v : A)
      → length items ≡ suc k
      → get_elem? items k ≡ some v
      → finish_page id (pos k) total items ≡ record {
        items = take k items;
        total_size = total;
        next_page_token = format_int (pos (id v));
        error = none;
      }
  unfolding finish_page ◌+ℤ◌
  finish_full k total items v l g =
      let less : length items - 1 ≡ k = ground arith in ground (arith, ap (λ n. take n items) less)

  pub finish_page-take :
      (k : ℕ) (total : ℤ) (rest : List A)
      → 0 < k
      → finish_page id (pos k) total (take (suc k) rest) ≡ page_of k total rest
  unfolding finish_page ◌+ℤ◌
  finish_page-take k total rest h = elim (Bool-cases (leb (length rest) k)) [
    | inl few ↦
        rw
          (
            take_all (suc k) rest (ground arith),
            take_all k rest (ground arith),
            drop_all k rest (ground arith),
          )
          (ground arith)
    | inr more ↦
        let (v, vs, d, g) = next_elem k rest (ground arith) in
        let l = length-take (suc k) rest (ground arith) in
        rw (d, finish_full k total (take (suc k) rest) v l g, take-take k rest) refl
  ]

  pub filter_first :
      (listed : A → Bool) (pg : ℤ) (xs : List A)
      → filter (λ x. from_token id [] pg x && listed x) xs ≡ filter listed xs
  unfolding is_empty
  filter_first listed pg xs = refl

  pub filter_next :
      (listed : A → Bool) (v : A) (pre rest xs : List A)
      → id v < 2 ^ 63
      → IsDescending id xs
      → filter listed xs ≡ pre ++ (v ∷ rest)
      → filter (λ x. from_token id (format_int (pos (id v))) (pos (id v)) x && listed x) xs
        ≡ v ∷ rest
  filter_next listed v pre rest xs small d e =
      sym (
        filter-filter (λ y. leb (id y) (id v)) listed
          (λ x. from_token id (format_int (pos (id v))) (pos (id v)) x && listed x)
          (λ x. rw (token_not_empty (id v) small) (ground arith)) xs)
      ∙ rw e (filter_from id pre rest v (rw (← e) (filter-IsDescending id listed xs d)))
