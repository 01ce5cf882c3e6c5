-- ===== src/Base/Clock.antt =====
-- Go's `time.Time` and `time.Duration` as nanosecond counts. A time counts from the zero time, so
-- `IsZero` is a test for 0. Durations are non-negative: the configuration and the command line
-- reject negative ones. `Sub` saturates at the largest `int64`; of a negative difference the
-- program only asks whether it is below a bound of at least 0, where 0 has the same answer, except
-- in `reuse`, which tests it first.
use repo_sync.Base.{ℕ, ◌-◌, ◌^◌, min, Bool, leb, ltb}

abbrev pub Time : Type 0
Time = ℕ

abbrev pub Duration : Type 0
Duration = ℕ

abbrev pub max_duration : Duration
max_duration = 2 ^ 63 - 1

abbrev pub sub_time : Time → Time → Duration
sub_time a b = min (a - b) max_duration

abbrev pub before : Time → Time → Bool
before a b = ltb a b

abbrev pub is_zero : Time → Bool
is_zero t = leb t 0
