-- ===== src/Planner.antt =====
-- `PlanBuilder` of `src/plan/`: the factorizations of a leaf, the request context, lanes and memory.
pub mod Radices
pub mod Enumerate
pub mod Context
pub mod Lanes
pub mod Measured
pub mod Divisors
pub mod Action
pub mod Doubles
pub mod Leaves
pub mod WellFormed
pub mod Costs
pub mod Convolution
pub mod Strings
pub mod Npu
pub mod Candidates
pub mod Build
