-- ===== src/Stores/Mock/Acl/Values.antt =====
-- What `appendUniqueValues` does to a list without duplicates.
use argo_messaging.Base.{
  Text, text_eq, ◌≡◌, ◌↔◌, ◌⊎◌, inl, inr, List, [], ◌∷◌, ◌++◌, In, Distinct, contains, contains_iff,
  In-append, Distinct-snoc, Bool-cases, arith, if◌then◌else◌, sym, ◌∙◌,
}
use mathlib.Core.Bool.{false≢true}
use argo_messaging.Stores.Mock.Acl.{append_unique_values}

-- The list of one user, added.
abbrev add : List Text → Text → List Text
add existing v = if contains v existing then existing else existing ++ (v ∷ [])

Distinct-add : (existing : List Text) (v : Text) → Distinct existing → Distinct (add existing v)
Distinct-add existing v d = elim (Bool-cases (contains v existing)) [
  | inl e ↦ rw e d
  | inr e ↦
      rw e (Distinct-snoc existing v d (λ i. false≢true (sym e ∙ (contains_iff v existing).1 i)))
]

In-add :
    (a : Text) (existing : List Text) (v : Text) → In a (add existing v) ↔ (In a existing ⊎ (a ≡ v))
In-add a existing v = elim (Bool-cases (contains v existing)) [
  | inl e ↦ rw e (inl, elim [ inl i ↦ i | inr p ↦ rw p ((contains_iff v existing).0 e) ])
  | inr e ↦
      rw e (
        ground (arith, In-append a existing (v ∷ [])),
        ground (arith, In-append a existing (v ∷ [])),
      )
]

-- Adding users to an access list without duplicates gives a list without duplicates, which holds
-- exactly the old users and the new ones.
pub append_unique_values_lem :
    (existing vs : List Text)
    → Distinct existing
    → Distinct (append_unique_values existing vs)
      × ((a : Text) → In a (append_unique_values existing vs) ↔ (In a existing ⊎ In a vs))
unfolding append_unique_values
append_unique_values_lem existing [] d = (d, λ a. (inl, ground arith))
append_unique_values_lem existing (v ∷ vs) d =
    let (d', i) = append_unique_values_lem (add existing v) vs (Distinct-add existing v d) in
    (d', λ a. (ground (arith, i a, In-add a existing v), ground (arith, i a, In-add a existing v)))
