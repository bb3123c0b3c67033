-- ===== src/Base/Loops.antt =====
-- The loops over a slice that return at the first element that passes a test.
use mathlib.Core.Bool.{Bool, true, false}
use mathlib.Core.Option.{Option, none, some}
use mathlib.Core.List.{List, [], ◌∷◌}
use argo_messaging.Base.Tests.{if◌then◌else◌}

module _ {A : Type 0} where
  -- The element `x` put before what the loop makes of the rest.
  abbrev pub kept : A → Option (List A) → Option (List A)
  kept x none = none
  kept x (some xs) = some (x ∷ xs)

  -- `for i, x := range xs { if p(x) { xs[i] = f(x); return } }`; `none` if no element passes.
  unfoldable pub modify_first : (A → Bool) → (A → A) → List A → Option (List A)
  modify_first p f [] = none
  modify_first p f (x ∷ xs) =
      let rest = modify_first p f xs in if p x then some (f x ∷ xs) else kept x rest

  -- `for i, x := range xs { if p(x) { xs = append(xs[:i], xs[i+1:]...); return } }`
  unfoldable pub remove_first : (A → Bool) → List A → Option (List A)
  remove_first p [] = none
  remove_first p (x ∷ xs) = let rest = remove_first p xs in if p x then some xs else kept x rest

  -- `for _, x := range xs { if p(x) { return x } }`
  unfoldable pub find_first : (A → Bool) → List A → Option A
  find_first p [] = none
  find_first p (x ∷ xs) = let rest = find_first p xs in if p x then some x else rest

  -- A loop that changes every element that passes.
  unfoldable pub modify_all : (A → Bool) → (A → A) → List A → List A
  modify_all p f [] = []
  modify_all p f (x ∷ xs) = (if p x then f x else x) ∷ modify_all p f xs

  unfoldable pub any : (A → Bool) → List A → Bool
  any p [] = false
  any p (x ∷ xs) = let rest = any p xs in if p x then true else rest

-- An option as a list of at most one element.
abbrev pub option_list : {A : Type 0} → Option A → List A
option_list none = []
option_list (some a) = a ∷ []
