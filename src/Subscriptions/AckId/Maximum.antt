-- ===== src/Subscriptions/AckId/Maximum.antt =====
-- `GetMaxAckID` on ids that `ValidAckID` has accepted.
use argo_messaging.Base.{
  Text, split, All, In, ok, err, Bool-cases, Option, none, some, List, [], ◌∷◌, ◌≡◌, refl, ◌⊎◌, inl,
  inr, true, if◌then◌else◌, arith, text_eq,
}
use argo_messaging.Base.Int.{ℤ, pos, ◌≤ℤ◌, ◌<ℤ◌, leb_ℤ}
use argo_messaging.Base.Decimal.{parse_int}
use argo_messaging.Validation.{valid_ack_id, valid_tokens, valid_sub_tokens, is_some}
use argo_messaging.Subscriptions.AckId.{
  get_offset_from_ack_id, offset_of_tokens, offset_of_sub_tokens, number_or_err, max_loop,
  get_max_ack_id, invalid_argument,
}

abbrev pub HasOffset : Text → Type 0
HasOffset a = (n : ℤ) × (get_offset_from_ack_id a ≡ ok n)

offset_of_valid_number : (o : Option ℤ) → is_some o ≡ true → (n : ℤ) × (number_or_err o ≡ ok n)
unfolding number_or_err
offset_of_valid_number none h = cc
offset_of_valid_number (some n) h = (n, refl)

offset_of_valid_sub_tokens :
    (sub : Text) (ts : List Text)
    → valid_sub_tokens sub ts ≡ true
    → (n : ℤ) × (offset_of_sub_tokens ts ≡ ok n)
unfolding valid_sub_tokens offset_of_sub_tokens
offset_of_valid_sub_tokens sub (a ∷ b ∷ []) h = offset_of_valid_number (parse_int b) (ground arith)
offset_of_valid_sub_tokens sub _ h = cc

offset_of_valid_tokens :
    (project sub : Text) (ts : List Text)
    → valid_tokens project sub ts ≡ true
    → (n : ℤ) × (offset_of_tokens ts ≡ ok n)
unfolding valid_tokens offset_of_tokens
offset_of_valid_tokens project sub (t0 ∷ t1 ∷ t2 ∷ t3 ∷ []) h =
    offset_of_valid_sub_tokens sub (split b':' t3) (ground arith)
offset_of_valid_tokens project sub _ h = cc

offset_of_valid : (project sub a : Text) → valid_ack_id project sub a ≡ true → HasOffset a
unfolding valid_ack_id get_offset_from_ack_id
offset_of_valid project sub a h = offset_of_valid_tokens project sub (split b'/' a) h

-- The offset of `a` is at most `k`.
abbrev pub OffsetAtMost : ℤ → Text → Type 0
OffsetAtMost k a = (n : ℤ) × (get_offset_from_ack_id a ≡ ok n) × (n ≤ℤ k)

-- The offset of `a` is less than `k`.
abbrev pub OffsetBelow : ℤ → Text → Type 0
OffsetBelow k a = (n : ℤ) × (get_offset_from_ack_id a ≡ ok n) × (n <ℤ k)

-- What the loop has found: a bound that one of the ids reaches, or the initial values.
abbrev pub IsMaximum : List Text → ℤ → Text → ℤ → Text → Type 0
IsMaximum ids k0 m0 k m =
    All (OffsetAtMost k) ids
    × (k0 ≤ℤ k)
    × (((k ≡ k0) × (m ≡ m0) × All (OffsetBelow k0) ids)
        ⊎ (In m ids × (get_offset_from_ack_id m ≡ ok k)))

max_loop-cons :
    (a : Text) (ids : List Text) (n k0 : ℤ) (m0 : Text)
    → get_offset_from_ack_id a ≡ ok n
    → max_loop (a ∷ ids) k0 m0 ≡ (if leb_ℤ k0 n then max_loop ids n a else max_loop ids k0 m0)
unfolding max_loop
max_loop-cons a ids n k0 m0 e = ground arith

-- Where the maximum comes from, one round earlier.
abbrev From : List Text → ℤ → Text → ℤ → Text → Type 0
From ids k0 m0 k m =
    ((k ≡ k0) × (m ≡ m0) × All (OffsetBelow k0) ids)
    ⊎ (In m ids × (get_offset_from_ack_id m ≡ ok k))

From-taken :
    (a : Text) (ids : List Text) (n k0 k : ℤ) (m0 m : Text)
    → get_offset_from_ack_id a ≡ ok n
    → From ids n a k m
    → From (a ∷ ids) k0 m0 k m
From-taken a ids n k0 k m0 m e (inl (p, q, b)) = inr (inl q, rw (p, q) e)
From-taken a ids n k0 k m0 m e (inr (i, o)) = inr (inr i, o)

From-skipped :
    (a : Text) (ids : List Text) (k0 k : ℤ) (m0 m : Text)
    → OffsetBelow k0 a
    → From ids k0 m0 k m
    → From (a ∷ ids) k0 m0 k m
From-skipped a ids k0 k m0 m below (inl (p, q, b)) = inl (p, q, (below, b))
From-skipped a ids k0 k m0 m below (inr (i, o)) = inr (inr i, o)

max_loop_lem :
    (ids : List Text) (k0 : ℤ) (m0 : Text)
    → All HasOffset ids
    → (k : ℤ) × (m : Text) × (max_loop ids k0 m0 ≡ ok (k, m)) × IsMaximum ids k0 m0 k m
max_loop_lem [] k0 m0 h =
    (k0, m0, (unfold max_loop in refl), (tt, omega arith, inl (refl, refl, tt)))
max_loop_lem (a ∷ ids) k0 m0 ((n, e), h) = elim (Bool-cases (leb_ℤ k0 n)) [
  | inl le ↦
      let (k, m, run, (all, up, from)) = max_loop_lem ids n a h in
      (
        k,
        m,
        rw (max_loop-cons a ids n k0 m0 e) (rw le run),
        (((n, e, up), all), ground arith, From-taken a ids n k0 k m0 m e from),
      )
  | inr gt ↦
      let (k, m, run, (all, up, from)) = max_loop_lem ids k0 m0 h in
      (
        k,
        m,
        rw (max_loop-cons a ids n k0 m0 e) (rw gt run),
        (((n, e, ground arith), all), up, From-skipped a ids k0 k m0 m (n, e, ground arith) from),
      )
]

All-HasOffset :
    (project sub : Text) (ids : List Text)
    → All (λ a. valid_ack_id project sub a ≡ true) ids
    → All HasOffset ids
All-HasOffset project sub [] h = tt
All-HasOffset project sub (a ∷ ids) (v, h) =
    (offset_of_valid project sub a v, All-HasOffset project sub ids h)

-- If `ValidAckID` accepts every id, then `GetMaxAckID` returns, with no error and no panic, an id
-- `m` and there is a bound `k`: no id has an offset above `k`, `k` is not negative, and either `m` is
-- one of the ids and has the offset `k`, or `k` is 0, `m` is empty and all offsets are negative.
pub get_max_ack_id_of_valid :
    (project sub : Text) (ids : List Text)
    → All (λ a. valid_ack_id project sub a ≡ true) ids
    → (k : ℤ) × (m : Text) × (get_max_ack_id ids ≡ ok m) × IsMaximum ids (pos 0) [] k m
unfolding get_max_ack_id
get_max_ack_id_of_valid project sub ids h =
    let (k, m, run, best) = max_loop_lem ids (pos 0) [] (All-HasOffset project sub ids h) in
    (k, m, rw run, best)

-- The empty text is no acknowledgement id.
pub offset_of_nothing : get_offset_from_ack_id [] ≡ err invalid_argument
unfolding get_offset_from_ack_id split offset_of_tokens
offset_of_nothing = refl
