-- ===== src/Datasource.antt =====
-- The datasource packages: scheduler/internal/datasource.
pub mod CircuitBreaker
pub mod Retry
pub mod HivePool
pub mod Manager
pub mod Concurrent
