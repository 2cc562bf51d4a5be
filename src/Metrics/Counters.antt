-- ===== src/Metrics/Counters.antt =====
-- The counters of the actions.
use nut_dog.Prelude.{ℕ, ◌+◌, ◌≡◌, ◌&&◌, arith, Text, ◌==◌, eq_iff, if◌then◌else◌}
use nut_dog.Metrics.{Vec2, counted, increment}
use nut_dog.Metrics.OneHot.{series-set_series}

pub counted-increment :
    (a b c d : Text) (g : Vec2 ℕ)
    → counted c d (increment a b g)
      ≡ (if a == c && b == d then counted c d g + 1 else counted c d g)
unfolding counted increment
counted-increment a b c d g =
    ground (arith, series-set_series a b c d (counted a b g + 1) g, eq_iff a c, eq_iff b d)
