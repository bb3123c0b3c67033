-- ===== src/Base/Results.antt =====
-- Go's ways to fail: an `error` value, or a run-time panic.
use argo_messaging.Base.Bytes.{Text}
use mathlib.Core.Bool.{Bool, true, false}
use mathlib.Core.Option.{Option, none, some}

-- A value of the type `error`: `none` is nil, and `some s` an error with the text `s`.
abbrev pub Error : Type 0
Error = Option Text

-- `err == nil`.
abbrev pub is_nil : Error → Bool
is_nil none = true
is_nil (some e) = false

-- What a call that may fail comes to.
pub data Result (A : Type 0) : Type 0 where
  ok : A → Result A
  err : Text → Result A
  panic : Result A

abbrev pub is_ok : {A : Type 0} → Result A → Bool
is_ok (ok a) = true
is_ok (err e) = false
is_ok panic = false
