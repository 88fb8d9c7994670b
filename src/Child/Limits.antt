-- ===== src/Child/Limits.antt =====
-- The limits that src/jail/child.rs sets.
use eval_python.Prelude.{◌+◌, ◌*◌, ◌<◌, ◌≤◌, arith, Duration, as_millis}
use eval_python.Child.{soft_limit}

-- The soft limit of the processor time, in seconds, is the time limit at milliseconds rounded up.
pub soft_limit_lem :
    (time_limit : Duration)
    → (as_millis time_limit ≤ soft_limit time_limit * 1000)
      × (soft_limit time_limit * 1000 < as_millis time_limit + 1000)
soft_limit_lem time_limit = ground arith
