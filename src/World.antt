-- ===== src/World.antt =====
-- What the code does to the outside, and what the outside answers.
--
-- Every call that leaves the program (the API server, a device, the registry, the clock, the event
-- recorder, the Prometheus gauges) is a value of `Call`. A run keeps the calls made so far, the
-- latest first. An `Env` answers each call by a function of that history, so any deterministic
-- outside is one, whatever state it keeps; the theorems hold for every `Env`.
pub mod Call
pub mod Env
pub mod Action
pub mod Emits
pub mod Policy
pub mod Made
pub mod Retry
