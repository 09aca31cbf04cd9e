-- ===== src/Common/Calendar.antt =====
-- Go's time.Time in UTC and `Time.AddDate`. An instant is the nanoseconds since 1 March of the
-- year 0; years and months are counted from there, so that a leap day ends its year. Instants
-- before that day are not represented. The counts have no upper bound: AddDate is that of Go while
-- the months, the days and the seconds it computes with stay below 2 ^ 63, where Go's int wraps.
use nvelope.Common.{ℕ, ◌+◌, ◌-◌, ◌*◌, ◌/◌, ◌%◌, ltb, if◌then◌else◌}
use nvelope.Common.Int64.{Int64, modulus, sign_bit}

abbrev pub Time : Type 0
Time = ℕ

-- time.Duration, in nanoseconds.
abbrev pub Duration : Type 0
Duration = Int64

abbrev pub day_length : ℕ
day_length = 86_400_000_000_000

abbrev pub hour : Duration
hour = 3_600_000_000_000

-- The first day of the k-th month.
unfoldable pub month_start : ℕ → ℕ
month_start k =
    let y = k / 12 in let m = k % 12 in 365 * y + y / 4 - y / 100 + y / 400 + (153 * m + 2) / 5

unfoldable pub year_of_era : ℕ → ℕ
year_of_era doe = (doe - doe / 1460 + doe / 36524 - doe / 146096) / 365

-- The month that a day falls in.
unfoldable pub month_of : ℕ → ℕ
unfolding year_of_era
month_of z =
    let doe = z % 146097 in
    let yoe = year_of_era doe in
    let doy = doe - (365 * yoe + yoe / 4 - yoe / 100) in
    12 * (400 * (z / 146097) + yoe) + (5 * doy + 2) / 153

-- `n + d` for a signed `d`.
unfoldable pub shift : ℕ → Int64 → ℕ
shift n d = if ltb d sign_bit then n + d else n - (modulus - d)

-- t.AddDate(0, months, days): the same day of the shifted month, running over into the next one
-- where that month is shorter, then the days.
unfoldable pub add_date : Time → Int64 → Int64 → Time
unfolding month_start month_of shift
add_date t months days =
    let z = t / day_length in
    let k = month_of z in
    shift (month_start (shift k months) + (z - month_start k)) days * day_length + t % day_length
