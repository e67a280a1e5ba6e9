-- ===== src/Time.antt =====
-- time.Time and time.Duration as nanoseconds. A Time spans seconds of 64 bits, so sums with the
-- program's durations stay in range; a difference is clamped to the int64 of a Duration.
use prequal_nc.Base.{ℤ, pos, negsuc, ◌-◌, ◌^◌, ◌-ℤ◌, ltb_ℤ, Bool, if◌then◌else◌}

abbrev pub Time : Type 0
Time = ℤ

abbrev pub Duration : Type 0
Duration = ℤ

-- t.After(u) and t.Before(u).
abbrev pub is_after : Time → Time → Bool
is_after t u = ltb_ℤ u t

abbrev pub is_before : Time → Time → Bool
is_before t u = ltb_ℤ t u

abbrev pub max_duration : Duration
max_duration = pos (2 ^ 63 - 1)

abbrev pub min_duration : Duration
min_duration = negsuc (2 ^ 63 - 1)

-- t.Sub(u).
unfoldable pub time_sub : Time → Time → Duration
unfolding ◌-ℤ◌
time_sub t u =
    let d = t -ℤ u in
    if ltb_ℤ max_duration d then max_duration else if ltb_ℤ d min_duration then min_duration else d

-- t.Add(-d).
unfoldable pub time_back : Time → Duration → Time
unfolding ◌-ℤ◌
time_back t d = t -ℤ d

abbrev pub millisecond : Duration
millisecond = pos 1_000_000

abbrev pub second : Duration
second = pos 1_000_000_000
