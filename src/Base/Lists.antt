-- ===== src/Base/Lists.antt =====
-- Lists measured and indexed by native numbers, and predicates by recursion on a list.
use Prim.Native.Nat.{ℕ, zero, suc, ◌+◌, ◌-◌}
use mathlib.Core.Path.{◌≡◌, refl, ap, sym}
use mathlib.Core.Logic.{◌⊎◌, ◌↔◌, inl, inr}
use mathlib.Core.Bool.{Bool, true, false, ◌||◌, ◌&&◌}
use mathlib.Core.List.{List, [], ◌∷◌, ◌++◌}
use mathlib.Core.Option.{Option, none, some}
use native.Mathlib.Nat.{zero-add, suc-add}
use native.Mathlib.Omega.{arith}
use argo_messaging.Base.Tests.{if◌then◌else◌, Comparable, ◌==◌}

module _ {ℓ} {A : Type ℓ} where
  abbrev pub length : List A → ℕ
  length [] = 0
  length (x ∷ xs) = suc (length xs)

  abbrev pub get_elem? : List A → ℕ → Option A
  get_elem? [] i = none
  get_elem? (x ∷ xs) zero = some x
  get_elem? (x ∷ xs) (suc i) = get_elem? xs i

  abbrev pub take : ℕ → List A → List A
  take zero xs = []
  take (suc n) [] = []
  take (suc n) (x ∷ xs) = x ∷ take n xs

  abbrev pub drop : ℕ → List A → List A
  drop zero xs = xs
  drop (suc n) [] = []
  drop (suc n) (x ∷ xs) = drop n xs

  abbrev pub filter : (A → Bool) → List A → List A
  filter p [] = []
  filter p (x ∷ xs) = let rest = filter p xs in if p x then x ∷ rest else rest

  -- `P` of every element.
  abbrev pub All {κ} : (A → Type κ) → List A → Type κ
  All P [] = Unit
  All P (x ∷ xs) = P x × All P xs

  -- To split on a computed list and keep the equation.
  pub List-cases : (xs : List A) → (xs ≡ []) ⊎ ((y : A) × (ys : List A) × (xs ≡ y ∷ ys))
  List-cases [] = inl refl
  List-cases (x ∷ xs) = inr (x, xs, refl)

  pub length-append : (xs ys : List A) → length (xs ++ ys) ≡ length xs + length ys
  length-append [] ys = omega arith
  length-append (x ∷ xs) ys = omega (arith, length-append xs ys)

  pub take-length : (xs : List A) → take (length xs) xs ≡ xs
  take-length [] = refl
  take-length (x ∷ xs) = ap (λ l. x ∷ l) (take-length xs)

  pub All-append {κ} : (P : A → Type κ) (xs ys : List A) → All P xs → All P ys → All P (xs ++ ys)
  All-append P [] ys h k = k
  All-append P (x ∷ xs) ys h k = (h.0, All-append P xs ys h.1 k)

-- `x` is an element.
abbrev pub In : {A : Type 0} → A → List A → Type 0
In a [] = ⊥
In a (x ∷ xs) = (a ≡ x) ⊎ In a xs

-- No element occurs twice.
abbrev pub Distinct : {A : Type 0} → List A → Type 0
Distinct [] = Unit
Distinct (x ∷ xs) = (¬ In x xs) × Distinct xs

module _ {A : Type 0} ⦃keys : Comparable A⦄ where
  -- The loop `for _, y := range xs { if y == x { return true } }; return false`.
  unfoldable pub contains : A → List A → Bool
  contains a [] = false
  contains a (x ∷ xs) = x == a || contains a xs

  contains-In : (a : A) (xs : List A) → contains a xs ≡ true → In a xs
  unfolding contains
  contains-In a [] h = cc
  contains-In a (x ∷ xs) h =
      ground (arith, keys.eq_of_equals x a, keys.equals_of_eq x a, contains-In a xs)

  In-contains : (a : A) (xs : List A) → In a xs → contains a xs ≡ true
  unfolding contains
  In-contains a [] h = absurd h
  In-contains a (x ∷ xs) h =
      ground (arith, keys.eq_of_equals x a, keys.equals_of_eq x a, In-contains a xs)

  pub contains_iff : (a : A) (xs : List A) → (contains a xs ≡ true) ↔ In a xs
  contains_iff a xs = (contains-In a xs, In-contains a xs)

module _ {A : Type 0} where
  In-append-split : (a : A) (xs ys : List A) → In a (xs ++ ys) → In a xs ⊎ In a ys
  In-append-split a [] ys h = inr h
  In-append-split a (x ∷ xs) ys h = ground (arith, In-append-split a xs ys)

  In-append-join : (a : A) (xs ys : List A) → In a xs ⊎ In a ys → In a (xs ++ ys)
  In-append-join a [] ys h = ground arith
  In-append-join a (x ∷ xs) ys h = ground (arith, In-append-join a xs ys)

  pub In-append : (a : A) (xs ys : List A) → In a (xs ++ ys) ↔ (In a xs ⊎ In a ys)
  In-append a xs ys = (In-append-split a xs ys, In-append-join a xs ys)

  pub Distinct-snoc : (xs : List A) (a : A) → Distinct xs → ¬ In a xs → Distinct (xs ++ (a ∷ []))
  Distinct-snoc [] a d n = ((λ h. h), tt)
  Distinct-snoc (x ∷ xs) a (nx, d) n = (
    (λ h. elim (In-append-split x xs (a ∷ []) h) [
      | inl i ↦ nx i
      | inr (inl e) ↦ n (inl (sym e))
      | inr (inr k) ↦ k
    ]),
    Distinct-snoc xs a d (λ i. n (inr i)),
  )

module _ {A : Type 0} where
  pub All-In {κ} : (P : A → Type κ) (a : A) (xs : List A) → In a xs → All P xs → P a
  All-In P a [] i h = absurd i
  All-In P a (x ∷ xs) (inl e) h = rw e h.0
  All-In P a (x ∷ xs) (inr i) h = All-In P a xs i h.1

  pub take-append :
      (pre rest : List A) (n : ℕ) → take (length pre + n) (pre ++ rest) ≡ pre ++ take n rest
  take-append [] rest n = rw zero-add
  take-append (p ∷ pre) rest n = rw suc-add (ap (λ l. p ∷ l) (take-append pre rest n))

  pub drop-append : (pre rest : List A) (n : ℕ) → drop (length pre + n) (pre ++ rest) ≡ drop n rest
  drop-append [] rest n = rw zero-add
  drop-append (p ∷ pre) rest n = rw suc-add (drop-append pre rest n)

  pub length-drop : (n : ℕ) (xs : List A) → length (drop n xs) ≡ length xs - n
  length-drop zero xs = omega arith
  length-drop (suc n) [] = omega arith
  length-drop (suc n) (x ∷ xs) = omega (arith, length-drop n xs)

  pub In-drop : (a : A) (n : ℕ) (xs : List A) → In a (drop n xs) → In a xs
  In-drop a zero xs h = h
  In-drop a (suc n) [] h = h
  In-drop a (suc n) (x ∷ xs) h = inr (In-drop a n xs h)

  pub In-filter :
      (p : A → Bool) (a : A) (xs : List A) → In a (filter p xs) ↔ (In a xs × (p a ≡ true))
  In-filter p a [] = ground arith
  In-filter p a (x ∷ xs) = ground (arith, In-filter p a xs, λ (e : a ≡ x). ap p e)

  pub Distinct-filter : (p : A → Bool) (xs : List A) → Distinct xs → Distinct (filter p xs)
  Distinct-filter p [] d = tt
  Distinct-filter p (x ∷ xs) (n, d) =
      let rest = Distinct-filter p xs d in
      let lacks : ¬ In x (filter p xs) = λ i. n ((In-filter p x xs).0 i).0 in ground arith

  -- Two filters in a row are one.
  pub filter-filter :
      (p q r : A → Bool)
      → ((x : A) → r x ≡ (q x && p x))
      → (xs : List A) → filter p (filter q xs) ≡ filter r xs
  filter-filter p q r e [] = refl
  filter-filter p q r e (x ∷ xs) = ground (arith, e x, filter-filter p q r e xs)
