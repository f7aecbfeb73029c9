-- ===== src/Util/Numbers.antt =====
-- The numeric helpers of util.h, and readings of the two clocks.
use zippy_fs.Common.{ℕ, ◌+◌, ◌*◌, ◌/◌, ◌%◌, ◌^◌, nat_beq, if◌then◌else◌}

-- `Util::ulong_ceil(a, b)`.
unfoldable pub ulong_ceil : ℕ → ℕ → ℕ
ulong_ceil a b = if nat_beq (a % b) 0 then a / b else (a / b + 1) % 2 ^ 64

-- `struct timeval`, as `gettimeofday` fills it.
pub record Timeval : Type 0 where
  pub tv_sec : ℕ
  pub tv_usec : ℕ

-- `struct timespec`.
pub record Timespec : Type 0 where
  pub tv_sec : ℕ
  pub tv_nsec : ℕ

-- What the two system clocks would answer at one moment.
pub record Moment : Type 0 where
  pub day : Timeval
  pub real : Timespec

-- `Util::get_time()`: milliseconds, from what `gettimeofday` answers.
unfoldable pub get_time : Moment → ℕ
get_time now = (now.day.tv_sec * 1000 + now.day.tv_usec / 1000) % 2 ^ 64

-- `Util::get_time_ts(millisec)`.
unfoldable pub get_time_ts : ℕ → Timespec
get_time_ts ms = record { tv_sec = ms / 1000; tv_nsec = ms % 1000 * 1000000 }

-- The moments of the readings that one call makes, in their order.
abbrev pub Clock : Type 0
Clock = ℕ → Moment

-- The readings after the first `k`.
abbrev pub later : ℕ → Clock → Clock
later k clock n = clock (k + n)
