-- ===== src/Tests.antt =====
-- Runs at concrete inputs, and the theorems at inputs that meet their hypotheses.
mod Tasks
mod Workers
mod Modes
mod Builds
mod Results
mod Specs
mod Addresses
mod Requests
mod Captures
mod Commands
mod Daemons
mod Archives
mod Databases
mod Routes
mod Registries
mod Dockerfiles
mod Queries
mod Preparations
