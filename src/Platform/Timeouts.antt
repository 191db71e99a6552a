-- ===== src/Platform/Timeouts.antt =====
-- The timeouts of the two platforms: `make_timeval` of platform/linux/UdpSocket.cpp and
-- `make_timeout_ms` of platform/windows/UdpSocket.cpp.
use discovery.Base.{ℕ, ◌+◌, ◌*◌, ◌≤◌, ◌<◌, ◌≡◌, ◌↔◌, arith}
use discovery.Base.Int.{ℤ, pos, negsuc}
use discovery.Platform.Linux.{make_timeval}
use discovery.Platform.Windows.{make_timeout_ms}

-- A timeout in milliseconds, where a negative one is none.
abbrev pub whole : ℤ → ℕ
whole (pos n) = n
whole (negsuc n) = 0

-- For every number of milliseconds: the `timeval` of Linux is that time to the microsecond, with
-- less than a second in its microseconds; the DWORD of Windows fits 32 bits and is that time, or
-- 4294967295 where it is longer; and each is the zero that means no timeout exactly when the
-- milliseconds are not positive.
pub make_timeval-make_timeout_ms :
    (z : ℤ)
    → let t = make_timeval z in
      (t.tv_sec * 1000000 + t.tv_usec ≡ whole z * 1000)
      × (t.tv_usec < 1000000)
      × (make_timeout_ms z ≤ 4294967295)
      × (whole z ≤ 4294967295 → make_timeout_ms z ≡ whole z)
      × (4294967295 ≤ whole z → make_timeout_ms z ≡ 4294967295)
      × (t.tv_sec + t.tv_usec ≡ 0 ↔ whole z ≡ 0)
      × (make_timeout_ms z ≡ 0 ↔ whole z ≡ 0)
unfolding make_timeval make_timeout_ms
make_timeval-make_timeout_ms (pos n) = ground arith
make_timeval-make_timeout_ms (negsuc n) = ground arith
