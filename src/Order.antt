-- ===== src/Order.antt =====
-- internal/order: the order lifecycle.
pub mod Status
pub mod Model
pub mod Ports
pub mod Contract
pub mod Repository
pub mod Memory
pub mod Transient
pub mod Process
pub mod Create
pub mod Service
pub mod History
pub mod Race
pub mod Handler
pub mod Postgres
