-- ===== src/Stores/Mock/Paging/Order.antt =====
-- The list that a page is taken from: sorted, and the first elements that are listed.
use argo_messaging.Base.{
  ℕ, zero, suc, ◌<◌, Bool, ◌≡◌, ◌↔◌, ◌⊎◌, refl, ap, List, [], ◌∷◌, ◌++◌, All, In, filter, take, leb,
  ltb, arith, inl, inr, Bool-cases,
}
use argo_messaging.Base.Int.{pos, ◌-ℤ◌, int_eq}
use argo_messaging.Stores.Mock.Paging.{insert_desc, sort_desc, collect}

previous : (n : ℕ) → pos (suc n) -ℤ pos 1 ≡ pos n
unfolding ◌-ℤ◌
previous n = ground arith

pub collect-take :
    {A : Type 0} (listed : A → Bool) (n : ℕ) (xs : List A)
    → collect listed (pos n) xs ≡ take n (filter listed xs)
unfolding collect
collect-take listed zero [] = refl
collect-take listed (suc n) [] = refl
collect-take listed zero (x ∷ xs) = refl
collect-take listed (suc n) (x ∷ xs) = ground (
  arith,
  ap (λ l. collect listed l xs) (previous n),
  collect-take listed n xs,
  collect-take listed (suc n) xs,
)

module _ {A : Type 0} (id : A → ℕ) where
  -- Each `_id` is less than those before it.
  abbrev pub IsDescending : List A → Type 0
  IsDescending [] = Unit
  IsDescending (x ∷ xs) = All (λ y. id y < id x) xs × IsDescending xs

  All-insert_desc :
      (P : A → Type 0) (x : A) (ys : List A) → P x → All P ys → All P (insert_desc id x ys)
  unfolding insert_desc
  All-insert_desc P x [] p h = (p, tt)
  All-insert_desc P x (y ∷ ys) p h = elim (Bool-cases (ltb (id x) (id y))) [
    | inl lt ↦ rw lt (h.0, All-insert_desc P x ys p h.1)
    | inr ge ↦ rw ge (p, h)
  ]

  pub All-sort_desc : (P : A → Type 0) (xs : List A) → All P xs → All P (sort_desc id xs)
  unfolding sort_desc
  All-sort_desc P [] h = tt
  All-sort_desc P (x ∷ xs) h = All-insert_desc P x (sort_desc id xs) h.0 (All-sort_desc P xs h.1)

  weaken : (a b : ℕ) → a < b → (ys : List A) → All (λ y. id y < a) ys → All (λ y. id y < b) ys
  weaken a b lt [] h = tt
  weaken a b lt (y ∷ ys) h = (omega (arith, h.0), weaken a b lt ys h.1)

  insert_desc-IsDescending :
      (x : A) (ys : List A)
      → All (λ y. ¬ (id y ≡ id x)) ys
      → IsDescending ys
      → IsDescending (insert_desc id x ys)
  unfolding insert_desc
  insert_desc-IsDescending x [] ne d = (tt, tt)
  insert_desc-IsDescending x (y ∷ ys) (n, ne) (below, d) = elim (Bool-cases (ltb (id x) (id y))) [
    | inl lt ↦
        rw lt (All-insert_desc _ x ys (ground arith) below, insert_desc-IsDescending x ys ne d)
    | inr ge ↦
        let less : id y < id x = ground arith in
        rw ge ((less, weaken (id y) (id x) less ys below), (below, d))
  ]

  -- No two entries have one `_id`.
  abbrev pub HasDistinctIds : List A → Type 0
  HasDistinctIds [] = Unit
  HasDistinctIds (x ∷ xs) = All (λ y. ¬ (id y ≡ id x)) xs × HasDistinctIds xs

  pub sort_desc-IsDescending : (xs : List A) → HasDistinctIds xs → IsDescending (sort_desc id xs)
  unfolding sort_desc
  sort_desc-IsDescending [] d = tt
  sort_desc-IsDescending (x ∷ xs) (n, d) =
      insert_desc-IsDescending x (sort_desc id xs) (All-sort_desc _ xs n)
        (sort_desc-IsDescending xs d)

  insert_desc_of_greater :
      (x : A) (ys : List A) → All (λ y. id y < id x) ys → insert_desc id x ys ≡ x ∷ ys
  unfolding insert_desc
  insert_desc_of_greater x [] h = refl
  insert_desc_of_greater x (y ∷ ys) h = ground (arith, h.0)

  -- A sorted list stays as it is.
  pub sort_desc_of_IsDescending : (xs : List A) → IsDescending xs → sort_desc id xs ≡ xs
  unfolding sort_desc
  sort_desc_of_IsDescending [] d = refl
  sort_desc_of_IsDescending (x ∷ xs) (below, d) =
      rw (sort_desc_of_IsDescending xs d) (insert_desc_of_greater x xs below)

  pub All-filter : (P : A → Type 0) (p : A → Bool) (xs : List A) → All P xs → All P (filter p xs)
  All-filter P p [] h = tt
  All-filter P p (x ∷ xs) h = elim (Bool-cases (p x)) [
    | inl e ↦ rw e (h.0, All-filter P p xs h.1)
    | inr e ↦ rw e (All-filter P p xs h.1)
  ]

  pub filter-IsDescending :
      (p : A → Bool) (xs : List A) → IsDescending xs → IsDescending (filter p xs)
  filter-IsDescending p [] d = tt
  filter-IsDescending p (x ∷ xs) (below, d) = elim (Bool-cases (p x)) [
    | inl e ↦ rw e (All-filter _ p xs below, filter-IsDescending p xs d)
    | inr e ↦ rw e (filter-IsDescending p xs d)
  ]

  All-kept : (n : ℕ) (xs : List A) → All (λ y. id y < n) xs → filter (λ y. leb (id y) n) xs ≡ xs
  All-kept n [] h = refl
  All-kept n (x ∷ xs) h = ground (arith, h.0, All-kept n xs h.1)

  middle_below :
      (p v : A) (pre rest : List A) → All (λ y. id y < id p) (pre ++ (v ∷ rest)) → id v < id p
  middle_below p v [] rest h = h.0
  middle_below p v (q ∷ pre) rest h = middle_below p v pre rest h.1

  -- From an entry on, the list goes on with the entries whose `_id` is not greater.
  pub filter_from :
      (pre rest : List A) (v : A)
      → IsDescending (pre ++ (v ∷ rest))
      → filter (λ y. leb (id y) (id v)) (pre ++ (v ∷ rest)) ≡ v ∷ rest
  filter_from [] rest v (below, d) = ground (arith, All-kept (id v) rest below)
  filter_from (p ∷ pre) rest v (below, d) =
      ground (arith, middle_below p v pre rest below, filter_from pre rest v d)

  In-insert_desc : (a x : A) (ys : List A) → In a (insert_desc id x ys) ↔ ((a ≡ x) ⊎ In a ys)
  unfolding insert_desc
  In-insert_desc a x [] = ground arith
  In-insert_desc a x (y ∷ ys) = ground (arith, In-insert_desc a x ys)

  -- Sorting keeps the entries.
  pub In-sort_desc : (a : A) (xs : List A) → In a (sort_desc id xs) ↔ In a xs
  unfolding sort_desc
  In-sort_desc a [] = ground arith
  In-sort_desc a (x ∷ xs) = ground (arith, In-insert_desc a x (sort_desc id xs), In-sort_desc a xs)
