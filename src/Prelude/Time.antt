-- ===== src/Prelude/Time.antt =====
-- `std::time::Duration`, as its number of nanoseconds.
use Prim.Native.Nat.{ℕ, ◌*◌, ◌/◌, ◌%◌}

abbrev pub Duration : Type 0
Duration = ℕ

abbrev pub from_secs : ℕ → Duration
from_secs s = s * 1000000000

abbrev pub from_millis : ℕ → Duration
from_millis ms = ms * 1000000

abbrev pub from_micros : ℕ → Duration
from_micros us = us * 1000

abbrev pub as_secs : Duration → ℕ
as_secs d = d / 1000000000

abbrev pub subsec_millis : Duration → ℕ
subsec_millis d = d % 1000000000 / 1000000

abbrev pub as_millis : Duration → ℕ
as_millis d = d / 1000000

abbrev pub as_micros : Duration → ℕ
as_micros d = d / 1000
