-- ===== src/Validation.antt =====
-- validation/validation.go: the names and the acknowledgement ids that a request may carry.
use argo_messaging.Base.{
  ℕ, Text, text, split, Lacks, is_empty, text_eq, ◌==◌, ◌≡◌, refl, sym, ◌∙◌, Bool, true, false,
  ◌&&◌, ◌||◌, not, Option, none, some, List, [], ◌∷◌, leb, nat_beq, if◌then◌else◌, arith,
}
use mathlib.Core.Bool.{false≢true}
use argo_messaging.Base.Decimal.{parse_int}

-- The class `[a-zA-Z0-9_-]`.
valid_char : ℕ → Bool
valid_char c =
    (leb b'a' c && leb c b'z')
    || (leb b'A' c && leb c b'Z')
    || (leb b'0' c && leb c b'9')
    || nat_beq c b'_'
    || nat_beq c b'-'

valid_chars : Text → Bool
unfolding valid_char
valid_chars [] = true
valid_chars (c ∷ s) = valid_char c && valid_chars s

-- `^[a-zA-Z0-9_-]+$`
unfoldable pub valid_name : Text → Bool
unfolding valid_chars is_empty
valid_name s = not (is_empty s) && valid_chars s

abbrev pub is_some : {A : Type 0} → Option A → Bool
is_some none = false
is_some (some a) = true

unfoldable pub valid_sub_tokens : Text → List Text → Bool
valid_sub_tokens sub (name ∷ number ∷ []) =
    if not (name == sub) then false else is_some (parse_int number)
valid_sub_tokens sub _ = false

unfoldable pub valid_tokens : Text → Text → List Text → Bool
unfolding valid_sub_tokens
valid_tokens project sub (t0 ∷ t1 ∷ t2 ∷ t3 ∷ []) =
    if not (t0 == text "projects") || not (t1 == project) || not (t2 == text "subscriptions")
    then false
    else valid_sub_tokens sub (split b':' t3)
valid_tokens project sub _ = false

unfoldable pub valid_ack_id : Text → Text → Text → Bool
unfolding valid_tokens
valid_ack_id project sub ack_id = valid_tokens project sub (split b'/' ack_id)

valid_chars-cons :
    (c : ℕ) (s : Text) → valid_chars (c ∷ s) ≡ true → (valid_char c ≡ true) × (valid_chars s ≡ true)
unfolding valid_chars
valid_chars-cons c s h = ground arith

Lacks-valid_chars : (k : ℕ) (s : Text) → valid_char k ≡ false → valid_chars s ≡ true → Lacks k s
Lacks-valid_chars k [] n h = tt
Lacks-valid_chars k (c ∷ s) n h =
    let (hc, hs) = valid_chars-cons c s h in
    (λ e. false≢true (sym n ∙ rw (← e) hc), Lacks-valid_chars k s n hs)

Lacks-valid_name : (k : ℕ) (s : Text) → valid_char k ≡ false → valid_name s ≡ true → Lacks k s
Lacks-valid_name k s n h = Lacks-valid_chars k s n (unfold valid_name in ground arith)

-- A name has neither of the separators of an acknowledgement id.
pub Lacks-slash : (s : Text) → valid_name s ≡ true → Lacks b'/' s
unfolding valid_char
Lacks-slash s = Lacks-valid_name b'/' s refl

pub Lacks-colon : (s : Text) → valid_name s ≡ true → Lacks b':' s
unfolding valid_char
Lacks-colon s = Lacks-valid_name b':' s refl
