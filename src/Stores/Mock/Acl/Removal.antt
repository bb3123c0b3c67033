-- ===== src/Stores/Mock/Acl/Removal.antt =====
-- `removeSingleValue`, which cuts the slice that it ranges over: right on a list without duplicates.
use argo_messaging.Base.{
  ℕ, suc, ◌+◌, ◌-◌, Text, text_eq, text_beq_iff, ◌==◌, ◌≡◌, ◌≢◌, refl, sym, ap, ◌∙◌, inl, inr, List,
  [], ◌∷◌, ◌++◌, In, Distinct, filter, length, take, drop, get_elem?, length-append, Bool-cases,
  not, ◌&&◌, arith, true, false, some, ok, take-length, take-append, drop-append, In-append,
  text_beq_refl, length-drop, In-drop, Distinct-filter, filter-filter, contains, leb,
}
use native.Mathlib.Nat.{add-zero, zero-add}
use native.Mathlib.Numerals.{add-one}
use mathlib.Core.Bool.{false≢true}
use mathlib.Core.List.{append_assoc, append-nil}
use argo_messaging.Stores.Mock.Acl.{
  Slice, cut, remove_loop, shown, remove_single_value, remove_values,
}

abbrev pub without : Text → List Text → List Text
without v = filter (λ x. not (x == v))

get_elem?-append :
    (pre : List Text) (x : Text) (rest : List Text)
    → get_elem? (pre ++ (x ∷ rest)) (length pre) ≡ some x
get_elem?-append [] x rest = refl
get_elem?-append (p ∷ pre) x rest = get_elem?-append pre x rest

ne-beq : (x v : Text) → v ≢ x → (x == v) ≡ false
ne-beq x v h = ground (arith, text_beq_iff x v)

-- A round on an element that is not removed.
remove_loop-skip :
    (rounds i : ℕ) (v x : Text) (s : Slice)
    → get_elem? s.array i ≡ some x
    → v ≢ x
    → remove_loop (suc rounds) i v s ≡ remove_loop rounds (suc i) v s
unfolding remove_loop
remove_loop-skip rounds i v x s e h = rw (e, remove_loop) (rw (ne-beq x v h))

-- Rounds that meet no element to remove change nothing.
remove_loop-lacks :
    (mid suf pre : List Text) (i : ℕ) (v : Text) (s : Slice)
    → s.array ≡ pre ++ (mid ++ suf)
    → i ≡ length pre
    → ¬ In v mid
    → remove_loop (length mid) i v s ≡ ok s
remove_loop-lacks [] suf pre i v s e p n = unfold remove_loop in refl
remove_loop-lacks (x ∷ mid) suf pre i v s e p n =
    remove_loop-skip (length mid) i v x s (rw (e, p) (get_elem?-append pre x (mid ++ suf)))
      (λ q. n (inl q))
    ∙ remove_loop-lacks mid suf (pre ++ (x ∷ [])) (suc i) v s (e ∙ rw append_assoc refl)
        (rw (length-append pre (x ∷ [])) (omega arith)) (λ q. n (inr q))

without_of_lacks : (v : Text) (xs : List Text) → ¬ In v xs → without v xs ≡ xs
without_of_lacks v [] n = refl
without_of_lacks v (x ∷ xs) n =
    rw (ne-beq x v (λ e. n (inl e))) (ap (λ l. x ∷ l) (without_of_lacks v xs (λ i. n (inr i))))

-- The slice while the loop stands before `rest`.
abbrev scanned : List Text → List Text → Slice
scanned pre rest = record { array = pre ++ rest; len = length pre + length rest }

-- The cell that a cut leaves behind: the array's last one.
abbrev last : Text → List Text → List Text
last v xs = drop (length xs) (v ∷ xs)

abbrev after_cut : List Text → Text → List Text → Slice
after_cut pre v xs = record { array = pre ++ (xs ++ last v xs); len = length pre + length xs }

take-pre : (pre rest : List Text) → take (length pre) (pre ++ rest) ≡ pre
take-pre pre rest = rw (← add-zero (length pre)) (take-append pre rest 0 ∙ append-nil pre)

drop-pre :
    (pre : List Text) (v : Text) (xs : List Text) → drop (suc (length pre)) (pre ++ (v ∷ xs)) ≡ xs
drop-pre pre v xs = rw (← add-one (length pre)) (drop-append pre (v ∷ xs) 1)

cut_lem :
    (pre xs : List Text) (v : Text)
    → cut (scanned pre (v ∷ xs)) (length pre) ≡ ok (after_cut pre v xs)
unfolding cut
cut_lem pre xs v = rw (
  fits,
  gap,
  fewer,
  take-pre pre (v ∷ xs),
  drop-pre pre v xs,
  take-length xs,
  drop-append pre (v ∷ xs) (length xs),
)
  where
    fits : leb (suc (length pre)) (length pre + suc (length xs)) ≡ true
    fits = ground arith

    gap : length pre + suc (length xs) - suc (length pre) ≡ length xs
    gap = omega arith

    fewer : length pre + suc (length xs) - 1 ≡ length pre + length xs
    fewer = omega arith

-- After the cut the remaining rounds find nothing more.
remove_loop-after_cut :
    (pre xs : List Text) (v : Text)
    → ¬ In v xs
    → remove_loop (length xs) (suc (length pre)) v (after_cut pre v xs) ≡ ok (after_cut pre v xs)
remove_loop-after_cut pre [] v n = unfold remove_loop in refl
remove_loop-after_cut pre (y ∷ ys) v n =
    ap (λ r. remove_loop r (suc (length pre)) v (after_cut pre v (y ∷ ys))) (sym rounds)
    ∙ remove_loop-lacks (ys ++ last v (y ∷ ys)) [] (pre ++ (y ∷ [])) (suc (length pre)) v
        (after_cut pre v (y ∷ ys)) (simp (append_assoc, append-nil))
        (rw (length-append pre (y ∷ [])) (omega arith))
        (λ i. elim ((In-append v ys (last v (y ∷ ys))).0 i) [
          | inl j ↦ n (inr j)
          | inr j ↦ n (In-drop v (length ys) (y ∷ ys) j)
        ])
  where
    rounds : length (ys ++ last v (y ∷ ys)) ≡ suc (length ys)
    rounds =
        rw (length-append ys (last v (y ∷ ys))) (omega (arith, length-drop (length ys) (y ∷ ys)))

remove_loop-hit :
    (pre xs : List Text) (v : Text)
    → ¬ In v xs
    → remove_loop (suc (length xs)) (length pre) v (scanned pre (v ∷ xs)) ≡ ok (after_cut pre v xs)
unfolding remove_loop
remove_loop-hit pre xs v n =
    rw (get_elem?-append pre v xs, remove_loop)
      (rw (text_beq_refl v) (rw (cut_lem pre xs v) (remove_loop-after_cut pre xs v n)))

snoc-append :
    (pre : List Text) (x : Text) (xs : List Text) → (pre ++ (x ∷ [])) ++ xs ≡ pre ++ (x ∷ xs)
snoc-append pre x xs = simp append_assoc

longer : (pre : List Text) (x : Text) → length (pre ++ (x ∷ [])) ≡ suc (length pre)
longer pre x = omega (arith, length-append pre (x ∷ []))

suc-add-suc : (m n : ℕ) → suc m + n ≡ m + suc n
suc-add-suc m n = omega arith

-- The loop from the place of `rest` on.
remove_loop_lem :
    (pre rest : List Text) (v : Text)
    → Distinct rest
    → shown (remove_loop (length rest) (length pre) v (scanned pre rest))
      ≡ ok (pre ++ without v rest)
remove_loop_lem pre [] v d =
    unfold remove_loop in rw (append-nil pre, add-zero (length pre), take-length pre)
remove_loop_lem pre (x ∷ xs) v (nx, d) = elim (Bool-cases (x == v)) [
  | inl hit ↦
      let e : x ≡ v = (text_beq_iff x v).0 hit in
      let n : ¬ In v xs = rw (← e) nx in
      rw e (
        rw (text_beq_refl v) (
          rw (remove_loop-hit pre xs v n) (
            rw (
              take-append pre (xs ++ last v xs) (length xs),
              take-pre xs (last v xs),
              without_of_lacks v xs n,
            ))))
  | inr miss ↦
      let ih = remove_loop_lem (pre ++ (x ∷ [])) xs v d in
      rw miss (
        rw
          (remove_loop-skip (length xs) (length pre) v x (scanned pre (x ∷ xs))
            (get_elem?-append pre x xs) (λ e. false≢true (sym miss ∙ (text_beq_iff x v).1 (sym e))))
          (rw
            (
              snoc-append pre x xs,
              snoc-append pre x (without v xs),
              longer pre x,
              suc-add-suc (length pre) (length xs),
            )
            at ih))
]

-- On a list without duplicates `removeSingleValue` does not panic, and returns the list without the
-- value, in order.
remove_single_value_lem :
    (existing : List Text) (v : Text)
    → Distinct existing
    → remove_single_value existing v ≡ ok (without v existing)
unfolding remove_single_value
remove_single_value_lem existing v d = rw zero-add at (remove_loop_lem [] existing v d)

not-contains-cons :
    (x v : Text) (vs : List Text)
    → not (contains x (v ∷ vs)) ≡ (not (x == v) && not (contains x vs))
unfolding contains
not-contains-cons x v vs = ground (arith, text_beq_iff x v, text_beq_iff v x)

filter-true : (xs : List Text) → filter (λ x. not false) xs ≡ xs
filter-true [] = refl
filter-true (x ∷ xs) = ap (λ l. x ∷ l) (filter-true xs)

-- On a list without duplicates `removeValues` does not panic, and returns the list without any of the
-- given values, in order.
pub remove_values_lem :
    (existing vs : List Text)
    → Distinct existing
    → remove_values existing vs ≡ ok (filter (λ x. not (contains x vs)) existing)
unfolding remove_values contains
remove_values_lem existing [] d = ap ok (sym (filter-true existing))
remove_values_lem existing (v ∷ vs) d =
    rw (remove_single_value_lem existing v d, remove_values)
      (remove_values_lem (without v existing) vs (Distinct-filter (λ x. not (x == v)) existing d)
        ∙ ap ok (
            filter-filter (λ x. not (contains x vs)) (λ x. not (x == v))
              (λ x. not (contains x (v ∷ vs))) (λ x. not-contains-cons x v vs) existing))
