-- ===== src/GoTime.antt =====
-- What the laboratories use of Go's package time. A time.Time is the number of its nanoseconds since
-- the earliest one that 64 bits of seconds represent, so `time_limit` bounds it; UTC() changes no
-- instant. A time.Duration that the code has tested to be nonnegative is a number.
use works_on_my_whiteboard.Prelude.{
  ℕ, ◌+◌, ◌-◌, ◌*◌, ◌%◌, ◌^◌, ◌≤◌, ◌<◌, ◌≡◌, min, ltb, leb, if◌then◌else◌, arith,
}
use works_on_my_whiteboard.Prelude.Int.{ℤ, pos, negsuc}

abbrev pub second : ℕ
second = 10 ^ 9

abbrev pub max_duration : ℕ
max_duration = 2 ^ 63 - 1

abbrev pub time_limit : ℕ
time_limit = 2 ^ 64 * 10 ^ 9

-- time.Unix(0, 0), from the seconds between year 1 and 1970.
abbrev pub unix_epoch : ℕ
unix_epoch = (2 ^ 63 + 62_135_596_800) * second

-- t.Add(d), d not negative: past the last second, the seconds stay and the nanoseconds go on.
unfoldable pub add : ℕ → ℕ → ℕ
add t d = if ltb (t + d) time_limit then t + d else (2 ^ 64 - 1) * second + (t + d) % second

-- t.Add(-d), d not negative: before the first second but one, the seconds stay there.
unfoldable pub subtract : ℕ → ℕ → ℕ
subtract t d = if leb d t then t - d else second + (t % second + (second - d % second)) % second

-- t.Add(d)
unfoldable pub shift : ℕ → ℤ → ℕ
shift t (pos d) = add t d
shift t (negsuc d) = subtract t (d + 1)

-- t.Sub(u), t not before u: the difference, or the largest Duration.
unfoldable pub sub : ℕ → ℕ → ℕ
sub t u = min (t - u) max_duration

pub add_exact : (t d : ℕ) → t + d < time_limit → add t d ≡ t + d
unfolding add
add_exact t d h = ground arith

pub sub_exact : (t u : ℕ) → t - u ≤ max_duration → sub t u ≡ t - u
unfolding sub
sub_exact t u h = omega arith

pub sub_saturated : (t u : ℕ) → max_duration ≤ t - u → sub t u ≡ max_duration
unfolding sub
sub_saturated t u h = omega arith
