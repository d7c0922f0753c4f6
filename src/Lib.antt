-- ===== src/Lib.antt =====
-- FlagFFT plans and runs fast Fourier transforms on accelerators. A C interface describes a transform;
-- a planner picks a tree of plan nodes for it from the device, the length and the environment; a
-- compiler has kernels generated for the tree; compiled nodes launch them. This library models the
-- decisions of the first two: which transforms are accepted, how a length is factored, how many lanes
-- a leaf has, what the index table of Rader's algorithm holds, and how a plan is stored.
--
-- The parts, and the code that each is about:
-- - Prelude: what the other modules share. Exceptions are values of `Result`, the environment is a
--   function from names to optional texts.
-- - Base: `src/utils/base.cpp` and `src/utils/include/flagfft/base.hpp`. The constants, the request,
--   the kinds of plan nodes and kernels with their names, the integer helpers.
-- - Rader: `src/plan/rader_utils.cpp`. `modpow`, `prime_factors_unique`, `is_prime_length`,
--   `find_primitive_root` and `build_rader_index_table`; children by what they prove.
-- - Policy: `src/codegen/request_policy.cpp`, `src/utils/include/flagfft/maca_tail_policy.hpp` and
--   `src/plan/maca_tail_plans.hpp`. Policies of single requests and the closed experiment matrix.
-- - Planner: `PlanBuilder`, in `src/plan/factorization.cpp`, `src/plan/cost_model.cpp`,
--   `src/plan/auto_candidates.cpp`, `src/plan/tune_candidates.cpp` and `src/plan/builder_context.cpp`.
--   Radices (the greedy factorization), Enumerate (all factorizations, with the memo table as state
--   that is passed on), Context (the request context and its replacement), Lanes (lanes, warps, shared
--   memory), Measured (the overrides and measured orders of `select_leaf_factors`, up to its cache),
--   Divisors (`enumerate_divisors`), Leaves (the rest of `select_leaf_factors`, the score and the cost of
--   a leaf, `make_leaf_plan`), Costs (the costs of the other nodes), Convolution (convolution lengths,
--   `make_bluestein_plan`, `make_rader_plan`), Npu and Candidates (`build_auto_candidates` on Ascend and
--   elsewhere, `build_auto_node`, `cost_for`) and Build (`build`). Action is the monad they are
--   written in: the state of the builder, with exceptions that keep it. WellFormed says what a right plan is
--   and what right memo tables are.
-- - Plan: `src/plan/nodes.cpp`. The plan tree. Plan.Json: `plan_node_to_json` of
--   `src/utils/plan_json.cpp` and `plan_node_from_json` of `src/plan/plan_deserialize.cpp`.
-- - Api: `include/flagfft.h`, `src/exec/c_api_internal.cpp`, `src/exec/c_api_plan.cpp` and
--   `src/exec/c_api_exec.cpp`. Describe (`flagfftPlan1d`, `2d`, `3d`, `Many` up to `build_plan`), Guards
--   (the first tests of `build_plan`), Request (`request_from_desc`), Setup (the half of `build_plan`
--   that compiles) and Handles (the calls on a handle as functions on a world of handles; the worlds
--   that are reachable; the table that they implement).
-- - Packing: `src/exec/tuned_plan.cpp`. The fused twiddle and the packs of a four-step plan.
-- - Tests: runs at concrete inputs.
--
-- How they interact: Api describes a transform and turns it into a request of Base; Planner makes its
-- context of the request, by the policies; its factorizations and lanes become leaves of Plan; a
-- stored plan falls back on Planner for the fields of a leaf that the document lacks.
--
-- Numbers: an `int64_t` that the code keeps non-negative is a natural number without a bound. The
-- interface takes lengths as `int`, below 2 ^ 31, so that the products of two residues in `modpow` fit
-- 64 bits. The `int` and `int64_t` products of the tests of descriptors wrap around (Api.Ints); a request
-- whose products overflow is undefined. `ceil_power_of_two` has no overflow: its values are lengths and
-- lanes, far below 2 ^ 62. The quotient by a factor 0 in `choose_lanes` has no counterpart in the source.
--
-- Loops: a loop is recursion on a number of rounds that is taken large enough at its call: the exponent
-- for `modpow`, the length for trial division, for the factorizations and for powers of two. A document
-- is read with fuel, which the height of the plan bounds. The planner's `build_auto_node` and `cost_for`
-- call each other to a depth that `build` takes; a run that needs more ends as `stopped`.
-- Planner.Npu.Total and Planner.Build.Returns are about the depth that is enough, on Ascend devices; on
-- others, where the depth grows with the tree, no bound is given.
--
-- Order: the arguments of one call of a C++ constructor, whose order of evaluation is open, are evaluated
-- from left to right.
--
-- Parameters: the environment, the floating-point arithmetic (`Planner.Doubles.Doubles`, of which no law is
-- assumed), the numbers and parts of a text (`Planner.Strings.Strings`), the device adaptor
-- (`Planner.Context.Adaptor`) and nlohmann's JSON library (`Plan.Json.JsonLibrary`, with its documented
-- behaviour as `JsonLaws`).
--
-- Open: that every prime has a primitive root, so that `find_primitive_root` does not end with
-- its last exception for a prime.
--
-- Not modelled: the compiler and its kernel selection, the kernel cache, the compiled nodes and the
-- adaptors (device code, processes and drivers); the database of tuned plans (I/O); hashes; the
-- candidates of the tuner; keys.
pub mod Prelude
pub mod Base
pub mod Rader
pub mod Policy
pub mod Planner
pub mod Plan
pub mod Api
pub mod Packing
mod Tests
