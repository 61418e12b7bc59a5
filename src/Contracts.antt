-- ===== src/Contracts.antt =====
-- messaging/contracts: the event model, its schema check and its factory.
pub mod Event
pub mod Factory
pub mod Json
pub mod Libraries
pub mod Models
pub mod Validation
