-- ===== src/Tests.antt =====
-- Runs of the models at concrete inputs.
mod Rader
mod Planner
mod Policy
mod Plan
mod Api
mod Handles
mod Builder
mod Packing
