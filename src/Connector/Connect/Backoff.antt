-- ===== src/Connector/Connect/Backoff.antt =====
-- packages/connector/src/connect.ts: the bounds of a reconnection's delay.
use superbull.Common.{ℕ, zero, suc, ◌*◌, ◌≤◌, ◌≡◌, min, arith}
use superbull.Connector.Connect.{delay_cap, power}

power_pos : (n : ℕ) → 1 ≤ power 2 n
power_pos zero = omega arith
power_pos (suc n) = omega (arith, power_pos n)

-- The bound of the delay is between a second and a minute, never falls as attempts fail, doubles while
-- that is within the minute, and is the minute from the seventh failure in a row.
pub delay_cap-bounds :
    (attempt : ℕ)
    → (1000 ≤ delay_cap attempt)
      × (delay_cap attempt ≤ 60000)
      × (delay_cap attempt ≤ delay_cap (suc attempt))
      × (delay_cap (suc attempt) ≡ min 60000 (2 * delay_cap attempt))
      × (delay_cap (suc (suc (suc (suc (suc (suc attempt)))))) ≡ 60000)
unfolding delay_cap
delay_cap-bounds attempt = (
  omega (arith, power_pos attempt),
  omega arith,
  omega arith,
  omega arith,
  omega (arith, power_pos attempt),
)
