-- ===== src/Common/Duration.antt =====
-- `kotlin.time.Duration`: a finite duration as its nanoseconds.
use Prim.Native.Nat.{ℕ, suc, ◌/◌}
use lib_rabbit_job_queue.Common.Int.{ℤ, pos, negsuc, ◌-ℤ◌}

abbrev pub Duration : Type 0
Duration = ℤ

abbrev pub nanos_per_milli : ℕ
nanos_per_milli = 1_000_000

abbrev pub nanos_per_second : ℕ
nanos_per_second = 1_000_000_000

-- The whole units of a duration, rounded towards zero.
unfoldable pub in_whole : ℕ → Duration → ℤ
unfolding ◌-ℤ◌
in_whole unit (pos n) = pos (n / unit)
in_whole unit (negsuc n) = pos 0 -ℤ pos (suc n / unit)

unfoldable pub in_whole_milliseconds : Duration → ℤ
unfolding in_whole
in_whole_milliseconds d = in_whole nanos_per_milli d

unfoldable pub in_whole_seconds : Duration → ℤ
unfolding in_whole
in_whole_seconds d = in_whole nanos_per_second d
