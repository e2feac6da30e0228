-- ===== src/RouteCheck.antt =====
-- scripts/route_check.py: the routes of the application database against those of the ASIC.
pub mod Diff
pub mod Filters
pub mod Check
pub mod Messages
mod Tests
