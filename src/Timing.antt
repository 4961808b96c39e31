-- ===== src/Timing.antt =====
-- The constants of src/application.h and src/transport.h, in milliseconds.
use libhdcp.Base.{ℕ, ◌/◌}

abbrev pub connecting_timeout : ℕ
connecting_timeout = 1000

abbrev pub command_timeout : ℕ
command_timeout = 1000

abbrev pub keepalive_timeout : ℕ
keepalive_timeout = 3000

abbrev pub keepalive_interval : ℕ
keepalive_interval = 1000

abbrev pub max_connection_attempts : ℕ
max_connection_attempts = 3

abbrev pub time_base_ms : ℕ
time_base_ms = 100

-- `timeout.count() / time_base_ms.count()`
abbrev pub ticks : ℕ → ℕ
ticks timeout = timeout / time_base_ms
