-- ===== src/Stores/Times.antt =====
-- What the source uses of package time: the layout "2006-01-02T15:04:05Z" as a parameter, and
-- durations.
use argo_messaging.Base.{
  ℕ, suc, ◌-◌, ◌*◌, ◌/◌, ◌^◌, ◌<◌, Text, Option, none, some, ◌≡◌, ltb, if◌then◌else◌,
}
use argo_messaging.Base.Int.{ℤ, pos, negsuc, ◌-ℤ◌}
use argo_messaging.Stores.Models.{Time, zero_time}

abbrev pub second : ℕ
second = 1000000000

-- The first time whose year has more than the four digits that the layout reads.
abbrev pub year_10000 : ℕ
year_10000 = 315537897600000000000

-- `Format` and `Parse` with that layout. A formatted time is read back to the second.
pub record Zulu : Type 0 where
  pub format : Time → Text
  pub parse : Text → Option Time
  pub parse-format : (t : Time) → t < year_10000 → parse (format t) ≡ some (t / second * second)

-- `t, _ := time.Parse(...)`: the zero time where the text is no time.
abbrev pub time_or_zero : Option Time → Time
time_or_zero none = zero_time
time_or_zero (some t) = t

-- A `time.Duration` saturates at the ends of int64.
abbrev saturate : ℤ → ℤ
saturate (pos n) = if ltb n (2 ^ 63) then pos n else pos (2 ^ 63 - 1)
saturate (negsuc n) = if ltb n (2 ^ 63) then negsuc n else negsuc (2 ^ 63 - 1)

abbrev whole_seconds : ℤ → ℤ
whole_seconds (pos n) = pos (n / second)
whole_seconds (negsuc n) = pos 0 -ℤ pos (suc n / second)

-- `int(given.Sub(ref).Seconds())`
unfoldable pub elapsed_seconds : Time → Time → ℤ
elapsed_seconds given ref = whole_seconds (saturate (pos given -ℤ pos ref))
