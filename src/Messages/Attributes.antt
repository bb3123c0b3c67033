-- ===== src/Messages/Attributes.antt =====
-- The attributes of a message behave as a map.
use argo_messaging.Base.{
  Text, text_eq, text_beq_iff, ◌==◌, ◌≡◌, refl, Option, none, some, Bool, not, ◌&&◌, is_nil, [],
  ◌∷◌, arith, if◌then◌else◌, Error, ◌⊎◌, inl, inr, Bool-cases, true, false, ap, ◌∙◌,
}
use argo_messaging.Messages.{
  Message, Attributes, lookup, set, delete, insert_attribute, update_attribute, remove_attribute,
  get_attribute, does_not_exist, entries, over, inserted, exists_already, attr_exists,
}

lookup-set :
    (key j value : Text) (m : Attributes)
    → lookup j (set key value m) ≡ (if key == j then some value else lookup j m)
unfolding lookup set
lookup-set key j value [] = refl
lookup-set key j value ((k, v) ∷ m) =
    ground
      (arith, text_beq_iff key j, text_beq_iff k key, text_beq_iff k j, lookup-set key j value m)

lookup-delete :
    (key j : Text) (m : Attributes)
    → lookup j (delete key m) ≡ (if key == j then none else lookup j m)
unfolding lookup delete
lookup-delete key j [] = ground arith
lookup-delete key j ((k, v) ∷ m) =
    ground (arith, text_beq_iff key j, text_beq_iff k key, text_beq_iff k j, lookup-delete key j m)

-- What a client reads of a message at a key.
abbrev read : Option Text → Text × Error
read (some v) = (v, none)
read none = ([], some does_not_exist)

get_attribute-lookup :
    (key : Text) (m : Message) → get_attribute key m ≡ read (lookup key (entries m.attr))
unfolding get_attribute
get_attribute-lookup key m = ground arith

-- `GetAttribute` finds the key.
abbrev pub has : Text → Message → Bool
has key m = is_nil (get_attribute key m).1

-- What `InsertAttribute` does of a key and a value, as a key `j` is then read.
abbrev pub IsInserted : Text → Text → Text → Message → Option (Message × Error) → Type 0
IsInserted key value j m none = (has key m ≡ false) × (m.attr ≡ none)
IsInserted key value j m (some (m', e)) =
    (is_nil e ≡ not (has key m))
    × ((has key m ≡ true) ⊎ (¬ (m.attr ≡ none)))
    × (get_attribute j m'
        ≡ (if not (has key m) && key == j then (value, none) else get_attribute j m))

has-attr_exists : (key : Text) (m : Message) → has key m ≡ (attr_exists key m).0
unfolding get_attribute
has-attr_exists key m = ground arith

nil_lacks : (key : Text) (m : Message) → m.attr ≡ none → (attr_exists key m).0 ≡ false
unfolding attr_exists lookup
nil_lacks key m e = rw e refl

insert_attribute-IsInserted :
    (key value j : Text) (m : Message) → IsInserted key value j m (insert_attribute key value m)
unfolding insert_attribute
insert_attribute-IsInserted key value j m = of_attr m.attr refl
  where
    of_attr :
        (o : Option Attributes)
        → m.attr ≡ o
        → IsInserted key value j m (
            if (attr_exists key m).0 then some (m, some exists_already) else inserted key value m o)
    of_attr none e = rw (nil_lacks key m e) (has-attr_exists key m ∙ nil_lacks key m e, e)
    of_attr (some a) e = elim (Bool-cases (attr_exists key m).0) [
      | inl there ↦ rw there (
          let h : has key m ≡ true = has-attr_exists key m ∙ there in (rw h refl, inl h, rw h refl))
      | inr new ↦ rw new (
          let h : has key m ≡ false = has-attr_exists key m ∙ new in
          (
            rw h refl,
            inr (λ nil. cc),
            rw (h, get_attribute-lookup j m, e)
                (get_attribute-lookup j (record m { attr = some (set key value a) })
                  ∙ ap read (lookup-set key j value a)
                  ∙ ground arith),
          ))
    ]

lookup-over :
    (key j : Text) (f : Attributes → Attributes) (v : Option Text) (o : Option Attributes)
    → ((m : Attributes) → lookup j (f m) ≡ (if key == j then v else lookup j m))
    → is_nil (read (lookup key (entries o))).1 ≡ true
    → lookup j (entries (over f o)) ≡ (if key == j then v else lookup j (entries o))
unfolding lookup
lookup-over key j f v none h there = cc
lookup-over key j f v (some m) h there = h m

-- For every message, key and value, and every key `j` that is then read: `InsertAttribute` panics exactly
-- if the key was not there and the map is nil; else it succeeds exactly if the key was not there, and
-- then `j` reads the value if `j` is the key, and else what it read before. `UpdateAttribute` and
-- `RemoveAttribute` succeed exactly if the key was there, and then it reads the new value, or the error
-- of a missing key. Where they fail, nothing reads otherwise.
pub attribute_operations :
    (key value j : Text) (m : Message)
    → IsInserted key value j m (insert_attribute key value m)
      × (is_nil (update_attribute key value m).1 ≡ has key m)
      × (get_attribute j (update_attribute key value m).0
          ≡ (if has key m && key == j then (value, none) else get_attribute j m))
      × (is_nil (remove_attribute key m).1 ≡ has key m)
      × (get_attribute j (remove_attribute key m).0
          ≡ (if has key m && key == j then ([], some does_not_exist) else get_attribute j m))
unfolding update_attribute remove_attribute
attribute_operations key value j m = simp get_attribute-lookup (
  insert_attribute-IsInserted key value j m,
  ground arith,
  ground (arith, lookup-over key j (set key value) (some value) m.attr (lookup-set key j value)),
  ground arith,
  ground (arith, lookup-over key j (delete key) none m.attr (lookup-delete key j)),
)
