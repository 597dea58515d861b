-- ===== src/Tests.antt =====
-- Concrete inputs: an environment in which everything answers, tests of the definitions on it, and
-- an instance of each result.
pub mod Setting
mod Devices
mod Scenario
mod Runs
mod Witnesses
mod ServerWitnesses
mod NodeWitnesses
