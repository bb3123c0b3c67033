-- ===== src/Stores/Mongo/Laws.antt =====
-- What the driver's documentation says of the calls on a collection, as laws on its documents in their
-- natural order, for a database that answers.
use argo_messaging.Base.{
  Text, Error, Bool, Option, none, some, List, [], ◌∷◌, ◌++◌, filter, find_first, modify_first,
  modify_all, remove_first, ◌≡◌, ◌⊎◌, inl, inr,
}
use argo_messaging.Base.Int.{ℤ, ◌+ℤ◌, IsInt64}
use argo_messaging.Stores.Mongo.{Driver, err_not_found}

-- The documents after a call that changes the first one that passes, or reports that none does.
abbrev pub Follows : {X D : Type 0} → (X → List D) → X × Error → List D → Option (List D) → Type 0
Follows contents (c, e) old none = (contents c ≡ old) × (e ≡ some err_not_found)
Follows contents (c, e) old (some new) = (contents c ≡ new) × (e ≡ none)

abbrev pub one_of : {D : Type 0} → Option D → Text ⊎ D
one_of none = inl err_not_found
one_of (some d) = inr d

-- An increment of the document that is found stays in the 64 bits of its field; MongoDB refuses others.
abbrev pub Fits : {D : Type 0} → (D → ℤ) → ℤ → Option D → Type 0
Fits field amount none = Unit
Fits field amount (some d) = IsInt64 (field d +ℤ amount)

pub record Documented {C : Type 0 → Type 0} (driver : Driver C) : Type 1 where
  pub contents : {D : Type 0} → C D → List D
  pub all-contents :
      {D : Type 0} (p : D → Bool) (c : C D) → driver.all p c ≡ inr (filter p (contents c))
  pub one-contents :
      {D : Type 0} (p : D → Bool) (c : C D) → driver.one p c ≡ one_of (find_first p (contents c))
  pub insert-contents :
      {D : Type 0} (d : D) (c : C D)
      → (contents (driver.insert d c).0 ≡ contents c ++ (d ∷ [])) × ((driver.insert d c).1 ≡ none)
  pub update-contents :
      {D : Type 0} (p : D → Bool) (f : D → D) (c : C D)
      → Follows contents (driver.update p f c) (contents c) (modify_first p f (contents c))
  pub increment-contents :
      {D : Type 0} (p : D → Bool) (field : D → ℤ) (set : ℤ → D → D) (amount : ℤ) (c : C D)
      → Fits field amount (find_first p (contents c))
      → Follows contents
          (driver.increment p field set amount c)
          (contents c)
          (modify_first p (λ d. set (field d +ℤ amount) d) (contents c))
  pub update_all-contents :
      {D : Type 0} (p : D → Bool) (f : D → D) (c : C D)
      → contents (driver.update_all p f c).0 ≡ modify_all p f (contents c)
  pub remove-contents :
      {D : Type 0} (p : D → Bool) (c : C D)
      → Follows contents (driver.remove p c) (contents c) (remove_first p (contents c))
