-- ===== src/Clock.antt =====
-- Go's package time, as far as the program uses it: a `time.Time` is its nanoseconds since the zero
-- time, and a `time.Duration` is an int64 of nanoseconds.
use nut_dog.Prelude.{
  ◌+◌, ◌/◌, ◌≤◌, ◌≡◌, ◌&&◌, ◌↔◌, Bool, arith, ℤ, pos, negsuc, ◌-ℤ◌, ◌≤ℤ◌, ltb_ℤ, leb_ℤ, pos_part,
  neg_part, if◌then◌else◌, true,
}

abbrev pub Time : Type 0
Time = ℤ

abbrev pub Duration : Type 0
Duration = ℤ

abbrev pub max_duration : Duration
max_duration = pos 9223372036854775807

abbrev pub min_duration : Duration
min_duration = negsuc 9223372036854775807

-- t.Sub(u), which saturates at the bounds of int64.
unfoldable pub sub_time : Time → Time → Duration
unfolding ◌-ℤ◌
sub_time t u =
    let d = t -ℤ u in
    if ltb_ℤ max_duration d then max_duration else if ltb_ℤ d min_duration then min_duration else d

-- t.IsZero()
abbrev pub is_zero : Time → Bool
is_zero t = leb_ℤ t (pos 0) && leb_ℤ (pos 0) t

-- int(d.Seconds()): whole seconds, towards zero. `Seconds` is a float64, which rounds up to the next
-- second only for durations of weeks within a nanosecond of it; that rounding is left out.
unfoldable pub whole_seconds : Duration → ℤ
whole_seconds (pos n) = pos (n / 1000000000)
whole_seconds (negsuc n) = pos 0 -ℤ pos ((n + 1) / 1000000000)

-- `since` has reached the bound `d`, seen through the saturated difference.
pub sub_time_reaches :
    (t u : Time) (d : Duration)
    → d ≤ℤ max_duration
    → (pos 0 ≤ℤ d)
    → (leb_ℤ d (sub_time t u) ≡ true)
      ↔ (pos_part u + pos_part d + neg_part t ≤ pos_part t + neg_part u)
unfolding sub_time
sub_time_reaches t u d fits h = (λ e. ground arith, λ e. ground arith)
