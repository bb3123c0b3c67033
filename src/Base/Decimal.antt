-- ===== src/Base/Decimal.antt =====
-- `strconv.FormatInt` and `strconv.ParseInt` in base 10 at 64 bits.
use argo_messaging.Base.Int.{ℤ, pos, negsuc, IsInt64}
use argo_messaging.Base.Bytes.{Text, text, Lacks}
use argo_messaging.Base.Tests.{ltb, leb, nat_beq, if◌then◌else◌, Bool-cases}
use Prim.Native.Nat.{ℕ, zero, suc, ◌+◌, ◌-◌, ◌*◌, ◌/◌, ◌%◌, ◌^◌, ◌≤◌, ◌<◌}
use mathlib.Core.Path.{◌≡◌, refl, sym, ◌∙◌}
use mathlib.Core.Logic.{◌≢◌, ◌⊎◌, inl, inr}
use mathlib.Core.Bool.{◌&&◌}
use mathlib.Core.Option.{Option, none, some}
use mathlib.Core.List.{[], ◌∷◌}
use native.Mathlib.Omega.{arith}

-- The digits of `n` before `out`; each round drops one, so a fuel above `n` is enough.
digits : ℕ → ℕ → Text → Text
digits zero n out = out
digits (suc fuel) n out =
    let rest = digits fuel (n / 10) ((b'0' + n % 10) ∷ out) in
    if ltb n 10 then (b'0' + n) ∷ out else rest

unfoldable pub format_nat : ℕ → Text
unfolding digits
format_nat n = digits (n + 1) n []

unfoldable pub format_int : ℤ → Text
unfolding format_nat
format_int (pos n) = format_nat n
format_int (negsuc n) = b'-' ∷ format_nat (n + 1)

-- The digits of a number, read onto `n`.
scan : ℕ → Text → Option ℕ
scan n [] = some n
scan n (c ∷ s) =
    let rest = scan (n * 10 + (c - b'0')) s in if leb b'0' c && leb c b'9' then rest else none

-- `ParseUint` without its bound, which `parse_int` tests.
unfoldable pub parse_nat : Text → Option ℕ
unfolding scan
parse_nat [] = none
parse_nat (c ∷ s) = scan 0 (c ∷ s)

-- The cut-offs of `ParseInt(s, 10, 64)`; `none` is a syntax or a range error.
positive : Option ℕ → Option ℤ
positive none = none
positive (some n) = if ltb n (2 ^ 63) then some (pos n) else none

negative : Option ℕ → Option ℤ
negative none = none
negative (some zero) = some (pos 0)
negative (some (suc n)) = if ltb n (2 ^ 63) then some (negsuc n) else none

unfoldable pub parse_int : Text → Option ℤ
unfolding parse_nat positive negative
parse_int [] = none
parse_int (c ∷ s) =
    if nat_beq c b'-'
    then negative (parse_nat s)
    else if nat_beq c b'+'
    then positive (parse_nat s)
    else positive (parse_nat (c ∷ s))

scan-digits : (fuel n : ℕ) (out : Text) → n < fuel → scan 0 (digits fuel n out) ≡ scan n out
unfolding scan digits
scan-digits zero n out h = absurd (omega arith)
scan-digits (suc fuel) n out h = elim (Bool-cases (ltb n 10)) [
  | inl e ↦ rw e (ground arith)
  | inr e ↦
      rw e (rw (scan-digits fuel (n / 10) ((b'0' + n % 10) ∷ out) (ground arith)) (ground arith))
]

digits-head :
    (fuel n : ℕ) (out : Text)
    → n < fuel
    → (c : ℕ) × (s : Text) × (digits fuel n out ≡ c ∷ s) × (b'0' ≤ c) × (c ≤ b'9')
unfolding digits
digits-head zero n out h = absurd (omega arith)
digits-head (suc fuel) n out h = elim (Bool-cases (ltb n 10)) [
  | inl e ↦ (b'0' + n, out, rw e, omega arith, ground arith)
  | inr e ↦ rw e (digits-head fuel (n / 10) ((b'0' + n % 10) ∷ out) (ground arith))
]

-- A byte that is no digit.
abbrev pub IsNoDigit : ℕ → Type 0
IsNoDigit k = (k < b'0') ⊎ (b'9' < k)

Lacks-digits :
    (k fuel n : ℕ) (out : Text) → IsNoDigit k → n < fuel → Lacks k out → Lacks k (digits fuel n out)
unfolding digits
Lacks-digits k zero n out d h l = absurd (omega arith)
Lacks-digits k (suc fuel) n out d h l = elim (Bool-cases (ltb n 10)) [
  | inl e ↦ rw e (ground arith, l)
  | inr e ↦
      rw e (Lacks-digits k fuel (n / 10) ((b'0' + n % 10) ∷ out) d (ground arith) (omega arith, l))
]

pub Lacks-format_nat : (k n : ℕ) → IsNoDigit k → Lacks k (format_nat n)
unfolding format_nat
Lacks-format_nat k n d = Lacks-digits k (n + 1) n [] d (omega arith) tt

pub Lacks-format_int : (k : ℕ) (a : ℤ) → IsNoDigit k → k ≢ b'-' → Lacks k (format_int a)
unfolding format_int
Lacks-format_int k (pos n) d ne = Lacks-format_nat k n d
Lacks-format_int k (negsuc n) d ne = (λ e. ne (sym e), Lacks-format_nat k (n + 1) d)

parse_nat-cons : (c : ℕ) (s : Text) → parse_nat (c ∷ s) ≡ scan 0 (c ∷ s)
unfolding parse_nat
parse_nat-cons c s = refl

pub parse_nat-format_nat : (n : ℕ) → parse_nat (format_nat n) ≡ some n
unfolding format_nat
parse_nat-format_nat n =
    let (c, s, e, lo, hi) = digits-head (n + 1) n [] (omega arith) in
    rw e
      (parse_nat-cons c s ∙ rw (← e) (scan-digits (n + 1) n [] (omega arith) ∙ unfold scan in refl))

parse_int-digit :
    (c : ℕ) (s : Text) → b'0' ≤ c → c ≤ b'9' → parse_int (c ∷ s) ≡ positive (parse_nat (c ∷ s))
unfolding parse_int
parse_int-digit c s lo hi = ground arith

parse_int-format_nat : (n : ℕ) → n < 2 ^ 63 → parse_int (format_nat n) ≡ some (pos n)
unfolding format_nat
parse_int-format_nat n h =
    let (c, s, e, lo, hi) = digits-head (n + 1) n [] (omega arith) in
    rw e (
      parse_int-digit c s lo hi
      ∙ rw (← e) (rw (parse_nat-format_nat n) (unfold positive in ground arith)))

-- Every int64 is read back from its decimal form.
pub parse_int-format_int : (a : ℤ) → IsInt64 a → parse_int (format_int a) ≡ some a
unfolding format_int
parse_int-format_int (pos n) h = parse_int-format_nat n h.0
parse_int-format_int (negsuc n) h =
    unfold parse_int negative in rw (parse_nat-format_nat (n + 1)) (ground arith)

reads_min : parse_int (text "-9223372036854775808") ≡ some (negsuc (2 ^ 63 - 1))
unfolding parse_int
reads_min = refl

refuses_max : parse_int (text "9223372036854775808") ≡ none
unfolding parse_int
refuses_max = refl

writes : format_int (negsuc 1041) ≡ text "-1042"
unfolding format_int
writes = refl
