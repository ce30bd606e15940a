-- ===== src/Examples.antt =====
-- Runs of the modelled code on concrete inputs.
mod Jobs
mod Encodes
mod Limits
mod Nights
mod Recipes
mod Executor
mod Outputs
mod Updates
mod Reviews
pub mod Controls
pub mod Searches
