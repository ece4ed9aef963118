-- ===== src/Tests.antt =====
-- The theorems at concrete inputs, one child for each component.
mod Breaker
mod Permits
mod Workers
mod Leaders
mod Rights
mod Instances
mod Requests
mod Queries
mod Executions
mod Schedules
mod Connections
mod Managers
mod Servers
mod Webhooks
mod Runners
