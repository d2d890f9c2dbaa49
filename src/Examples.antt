-- ===== src/Examples.antt =====
-- The theorems at concrete inputs, and runs of the definitions.
mod Data
mod Memory
mod Services
mod Wire
mod Workload
mod Status
mod Sessions
mod Telemetry
mod Files
mod Shell
mod Processes
mod Machine
mod Deploy
mod Brokers
mod Objects
mod Requests
mod Linked
