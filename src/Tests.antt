-- ===== src/Tests.antt =====
-- Runs at concrete inputs, and the theorems at inputs that meet their hypotheses.
mod SampleJson
mod SampleBoost
mod Url
mod Request
mod SampleTime
mod Service
mod Handler
mod Pool
mod Accepting
mod Codes
mod SampleFiles
mod Setup
mod Daemon
mod Launch
mod System
mod Connections
