-- ===== src/Base/Searches.antt =====
-- The searching loops on a list in which at most one element passes.
use mathlib.Core.Path.{◌≡◌, refl, ap}
use mathlib.Core.Logic.{inl, inr}
use mathlib.Core.Bool.{Bool, true, false}
use mathlib.Core.Option.{Option, none, some}
use mathlib.Core.List.{List, [], ◌∷◌, ◌++◌}
use argo_messaging.Base.Tests.{Bool-cases}
use argo_messaging.Base.Lists.{filter}
use argo_messaging.Base.Loops.{modify_first, remove_first, find_first, kept, any}

abbrev pub head? : {A : Type 0} → List A → Option A
head? [] = none
head? (x ∷ xs) = some x

abbrev pub has_any : {A : Type 0} → List A → Bool
has_any [] = false
has_any (x ∷ xs) = true

module _ {A : Type 0} (p : A → Bool) where
  pub find_first-filter : (xs : List A) → find_first p xs ≡ head? (filter p xs)
  unfolding find_first
  find_first-filter [] = refl
  find_first-filter (x ∷ xs) = elim (Bool-cases (p x)) [
    | inl h ↦ rw h refl
    | inr h ↦ rw h (find_first-filter xs)
  ]

  pub any-filter : (xs : List A) → any p xs ≡ has_any (filter p xs)
  unfolding any
  any-filter [] = refl
  any-filter (x ∷ xs) = elim (Bool-cases (p x)) [ inl h ↦ rw h refl | inr h ↦ rw h (any-filter xs) ]

  pub filter-append : (xs ys : List A) → filter p (xs ++ ys) ≡ filter p xs ++ filter p ys
  filter-append [] ys = refl
  filter-append (x ∷ xs) ys = elim (Bool-cases (p x)) [
    | inl h ↦ rw h (ap (λ l. x ∷ l) (filter-append xs ys))
    | inr h ↦ rw h (filter-append xs ys)
  ]

  pub filter-passes : (xs : List A) (q : A) → filter p xs ≡ q ∷ [] → p q ≡ true
  filter-passes [] q e = cc
  filter-passes (x ∷ xs) q e = elim (Bool-cases (p x)) [
    | inl t ↦
        let e' : x ∷ filter p xs ≡ q ∷ [] = rw t at e in let same : x ≡ q = cc in rw (← same) t
    | inr t ↦ let e' : filter p xs ≡ q ∷ [] = rw t at e in filter-passes xs q e'
  ]

  -- The list after a change of the only element that passes.
  abbrev pub Changes : Option (List A) → List A → Type 0
  Changes o passing = (ys : List A) × (o ≡ some ys) × (filter p ys ≡ passing)

  kept-Changes :
      (x : A) (o : Option (List A)) (passing : List A)
      → p x ≡ false
      → Changes o passing
      → Changes (kept x o) passing
  kept-Changes x o passing h (ys, e, f) = (x ∷ ys, rw e refl, rw h f)

  pub modify_first-Changes :
      (f : A → A) (xs : List A) (q : A)
      → filter p xs ≡ q ∷ []
      → p (f q) ≡ true
      → Changes (modify_first p f xs) (f q ∷ [])
  unfolding modify_first
  modify_first-Changes f [] q e h = cc
  modify_first-Changes f (x ∷ xs) q e h = elim (Bool-cases (p x)) [
    | inl t ↦
        let e' : x ∷ filter p xs ≡ q ∷ [] = rw t at e in
        let same : x ≡ q = cc in
        let alone : filter p xs ≡ [] = cc in
        rw t (f x ∷ xs, refl, rw (same, h) (ap (λ l. f q ∷ l) alone))
    | inr t ↦
        let e' : filter p xs ≡ q ∷ [] = rw t at e in
        rw t (kept-Changes x (modify_first p f xs) (f q ∷ []) t (modify_first-Changes f xs q e' h))
  ]

  pub remove_first-Changes :
      (xs : List A) (q : A) → filter p xs ≡ q ∷ [] → Changes (remove_first p xs) []
  unfolding remove_first
  remove_first-Changes [] q e = cc
  remove_first-Changes (x ∷ xs) q e = elim (Bool-cases (p x)) [
    | inl t ↦
        let e' : x ∷ filter p xs ≡ q ∷ [] = rw t at e in
        let alone : filter p xs ≡ [] = cc in rw t (xs, refl, alone)
    | inr t ↦
        let e' : filter p xs ≡ q ∷ [] = rw t at e in
        rw t (kept-Changes x (remove_first p xs) [] t (remove_first-Changes xs q e'))
  ]

-- Tests that agree let the same element pass.
pub find_first-ext :
    {A : Type 0} (p r : A → Bool)
    → ((x : A) → p x ≡ r x)
    → (xs : List A) → find_first p xs ≡ find_first r xs
unfolding find_first
find_first-ext p r h [] = refl
find_first-ext p r h (x ∷ xs) = rw (h x, find_first-ext p r h xs) refl

pub find_first-passes :
    {A : Type 0} (p : A → Bool) (xs : List A) (x : A) → find_first p xs ≡ some x → p x ≡ true
unfolding find_first
find_first-passes p [] x e = cc
find_first-passes p (y ∷ ys) x e = elim (Bool-cases (p y)) [
  | inl t ↦ let e' : some y ≡ some x = rw t at e in let same : y ≡ x = cc in rw (← same) t
  | inr t ↦ let e' : find_first p ys ≡ some x = rw t at e in find_first-passes p ys x e'
]

-- The first element that passes, after it was changed to one that passes.
pub find_first-modify_first :
    {A : Type 0} (p : A → Bool) (f : A → A) (xs : List A) (x : A)
    → find_first p xs ≡ some x
    → p (f x) ≡ true
    → (ys : List A) × (modify_first p f xs ≡ some ys) × (find_first p ys ≡ some (f x))
unfolding find_first modify_first
find_first-modify_first p f [] x e h = cc
find_first-modify_first p f (y ∷ ys) x e h = elim (Bool-cases (p y)) [
  | inl t ↦
      let e' : some y ≡ some x = rw t at e in
      let same : y ≡ x = cc in rw (t, same) (f x ∷ ys, refl, rw h refl)
  | inr t ↦
      let e' : find_first p ys ≡ some x = rw t at e in
      let (zs, changed, found) = find_first-modify_first p f ys x e' h in
      rw t (y ∷ zs, rw changed refl, rw t found)
]
