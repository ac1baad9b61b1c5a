-- ===== src/Server/Rounding.antt =====
-- server.go: what rounding to milliseconds does to a duration.
use go_reverse_rpc.Base.{ℕ, ◌+◌, ◌*◌, ◌/◌, ◌≤◌, ◌≡◌, arith}
use go_reverse_rpc.Server.{round_millisecond}

-- Rounding to milliseconds is off by half a millisecond at most, in either direction, and leaves
-- whole milliseconds.
pub round_millisecond_bounds :
    (d : ℕ)
    → (round_millisecond d ≤ d + 500000)
      × (d ≤ round_millisecond d + 500000)
      × (round_millisecond d / 1000000 * 1000000 ≡ round_millisecond d)
unfolding round_millisecond
round_millisecond_bounds d = omega arith
