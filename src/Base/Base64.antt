-- ===== src/Base/Base64.antt =====
-- `base64.StdEncoding`.
use Prim.Native.Nat.{ℕ, ◌+◌, ◌-◌, ◌*◌, ◌/◌, ◌%◌, ◌<◌}
use mathlib.Core.Path.{◌≡◌, refl}
use mathlib.Core.Bool.{Bool, true, false, ◌&&◌, ◌||◌, not}
use mathlib.Core.Option.{Option, none, some}
use mathlib.Core.List.{[], ◌∷◌}
use native.Mathlib.Omega.{arith}
use argo_messaging.Base.Tests.{ltb, leb, nat_beq, if◌then◌else◌}
use argo_messaging.Base.Lists.{All, filter}
use argo_messaging.Base.Bytes.{Text, text, is_empty}

-- The alphabet.
unfoldable pub symbol : ℕ → ℕ
symbol n =
    if ltb n 26
    then b'A' + n
    else if ltb n 52
    then b'a' + (n - 26)
    else if ltb n 62
    then b'0' + (n - 52)
    else if nat_beq n 62
    then b'+'
    else b'/'

value : ℕ → Option ℕ
value c =
    if leb b'A' c && leb c b'Z'
    then some (c - b'A')
    else if leb b'a' c && leb c b'z'
    then some (c - b'a' + 26)
    else if leb b'0' c && leb c b'9'
    then some (c - b'0' + 52)
    else if nat_beq c b'+'
    then some 62
    else if nat_beq c b'/'
    then some 63
    else none

-- `EncodeToString`
unfoldable pub encode : Text → Text
encode [] = []
encode (a ∷ []) = symbol (a / 4) ∷ symbol (a % 4 * 16) ∷ b'=' ∷ b'=' ∷ []
encode (a ∷ b ∷ []) =
    symbol (a / 4) ∷ symbol (a % 4 * 16 + b / 16) ∷ symbol (b % 16 * 4) ∷ b'=' ∷ []
encode (a ∷ b ∷ c ∷ s) =
    symbol (a / 4)
    ∷ symbol (a % 4 * 16 + b / 16)
    ∷ symbol (b % 16 * 4 + c / 64)
    ∷ symbol (c % 64)
    ∷ encode s

byte1 : ℕ → ℕ → ℕ
byte1 w x = w * 4 + x / 16

byte2 : ℕ → ℕ → ℕ
byte2 x y = x % 16 * 16 + y / 4

byte3 : ℕ → ℕ → ℕ
byte3 y z = y % 4 * 64 + z

-- A group of four symbols without padding, before what follows it.
full : Option ℕ → Option ℕ → Option ℕ → Option ℕ → Option Text → Option Text
full (some w) (some x) (some y) (some z) (some s) = some (byte1 w x ∷ byte2 x y ∷ byte3 y z ∷ s)
full _ _ _ _ _ = none

-- The last group, with one padding character or two.
one_pad : Option ℕ → Option ℕ → Option ℕ → Option Text
one_pad (some w) (some x) (some y) = some (byte1 w x ∷ byte2 x y ∷ [])
one_pad _ _ _ = none

two_pads : Option ℕ → Option ℕ → Option Text
two_pads (some w) (some x) = some (byte1 w x ∷ [])
two_pads _ _ = none

groups : Text → Option Text
groups [] = some []
groups (w ∷ x ∷ y ∷ z ∷ s) =
    let rest = groups s in
    if nat_beq z b'='
    then (if not (is_empty s)
        then none
        else if nat_beq y b'='
        then two_pads (value w) (value x)
        else one_pad (value w) (value x) (value y))
    else full (value w) (value x) (value y) (value z) rest
groups _ = none

-- `DecodeString`, which skips line breaks; `none` is its error.
unfoldable pub decode : Text → Option Text
unfolding groups full one_pad two_pads byte1 byte2 byte3 value
decode s = groups (filter (λ c. not (nat_beq c 10 || nat_beq c 13)) s)

value-symbol : (n : ℕ) → n < 64 → value (symbol n) ≡ some n
unfolding value symbol
value-symbol n h = ground arith

symbol-ne-pad : (n : ℕ) → n < 64 → nat_beq (symbol n) b'=' ≡ false
unfolding symbol
symbol-ne-pad n h = ground arith

abbrev kept : ℕ → Bool
kept c = not (nat_beq c 10 || nat_beq c 13)

symbol-kept : (n : ℕ) → kept (symbol n) ≡ true
unfolding symbol
symbol-kept n = ground arith

abbrev pub IsBytes : Text → Type 0
IsBytes = All (λ c. c < 256)

-- The symbols of an encoding are no line breaks.
abbrev lines : Text → Text
lines = filter kept

lines-symbol : (n : ℕ) (s : Text) → lines (symbol n ∷ s) ≡ symbol n ∷ lines s
lines-symbol n s = rw (symbol-kept n)

encode-kept : (s : Text) → lines (encode s) ≡ encode s
unfolding encode
encode-kept [] = refl
encode-kept (a ∷ []) = simp lines-symbol
encode-kept (a ∷ b ∷ []) = simp lines-symbol
encode-kept (a ∷ b ∷ c ∷ s) = simp lines-symbol (rw (encode-kept s))

-- The bytes come back from the four values that they make.
bytes_back :
    (a b c : ℕ)
    → a < 256
    → b < 256
    → c < 256
    → (byte1 (a / 4) (a % 4 * 16 + b / 16) ≡ a)
      × (byte2 (a % 4 * 16 + b / 16) (b % 16 * 4 + c / 64) ≡ b)
      × (byte3 (b % 16 * 4 + c / 64) (c % 64) ≡ c)
unfolding byte1 byte2 byte3
bytes_back a b c ha hb hc = (omega arith, omega arith, omega arith)

byte1_back : (a : ℕ) → byte1 (a / 4) (a % 4 * 16) ≡ a
unfolding byte1
byte1_back a = omega arith

byte2_back : (a b : ℕ) → b < 256 → byte2 (a % 4 * 16 + b / 16) (b % 16 * 4) ≡ b
unfolding byte2
byte2_back a b hb = omega arith

groups-encode : (s : Text) → IsBytes s → groups (encode s) ≡ some s
unfolding encode groups two_pads one_pad full is_empty
groups-encode [] h = refl
groups-encode (a ∷ []) h =
    rw (value-symbol (a / 4) (omega arith))
      (rw (value-symbol (a % 4 * 16) (omega arith)) (rw (byte1_back a)))
groups-encode (a ∷ b ∷ []) h = rw (symbol-ne-pad (b % 16 * 4) (omega arith)) (
    rw
      (
        value-symbol (a / 4) (omega arith),
        value-symbol (a % 4 * 16 + b / 16) (omega arith),
        value-symbol (b % 16 * 4) (omega arith),
      )
      (ground (arith, bytes_back a b 0, byte2_back a b)))
groups-encode (a ∷ b ∷ c ∷ s) (ha, (hb, (hc, h))) = rw (symbol-ne-pad (c % 64) (omega arith)) (
    rw
      (
        value-symbol (a / 4) (omega arith),
        value-symbol (a % 4 * 16 + b / 16) (omega arith),
        value-symbol (b % 16 * 4 + c / 64) (omega arith),
        value-symbol (c % 64) (omega arith),
        groups-encode s h,
      )
      (ground (arith, bytes_back a b c)))

-- Every string is read back from its encoding.
pub decode-encode : (s : Text) → IsBytes s → decode (encode s) ≡ some s
decode-encode s h = unfold decode in rw (encode-kept s) (groups-encode s h)

test1 : encode (text "any carnal pleas") ≡ text "YW55IGNhcm5hbCBwbGVhcw=="
unfolding encode symbol
test1 = refl

test2 : decode (text "YW55IGNhcm5hbCBwbGVhcw==") ≡ some (text "any carnal pleas")
unfolding decode is_empty
test2 = refl
