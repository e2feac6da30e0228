-- ===== src/RouteCheck/Check/Interval.antt =====
-- scripts/route_check.py: the scan interval.
use sonic_utility.Base.{◌≢◌, ◌≤◌, arith}
use sonic_utility.Base.Int.{ℤ, pos, negsuc}
use sonic_utility.RouteCheck.Check.{scan_interval}

-- Whatever interval is asked for, except 0, the one between two scans is from 10 to 3600 seconds.
pub scan_interval-bounds :
    (asked : ℤ) → asked ≢ pos 0 → (10 ≤ scan_interval asked) × (scan_interval asked ≤ 3600)
unfolding scan_interval
scan_interval-bounds (negsuc n) h = (omega arith, omega arith)
scan_interval-bounds (pos n) h = ground arith
