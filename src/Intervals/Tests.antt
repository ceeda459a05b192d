-- ===== src/Intervals/Tests.antt =====
-- The width of the buckets, at small periods.
use dashscan.Prelude.{◌≤◌, ◌<◌, ◌/◌, ◌≡◌, refl, arith}
use dashscan.Intervals.{calculate_interval}
use dashscan.Intervals.Bounds.{calculate_interval-count}

day : calculate_interval 86400000 ≡ ("PT6H", 21600000)
unfolding calculate_interval
day = refl

calculate_interval-count_example :
    (4 ≤ 86400000 / (calculate_interval 86400000).1)
    × (86400000 / (calculate_interval 86400000).1 < 48)
calculate_interval-count_example = calculate_interval-count 86400000 (omega arith) (omega arith)
