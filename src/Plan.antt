-- ===== src/Plan.antt =====
-- commonnet/plan.py: which decoder layers each of two members serves, decided by memory.
-- `Search` is the loop over split points, `Split` the planner for equal layers, `Hybrid` the one for
-- layers that differ, `Capacity` what the refusal reports.
pub mod Search
pub mod Member
pub mod Split
pub mod Hybrid
pub mod Capacity
mod Tests
