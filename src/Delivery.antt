-- ===== src/Delivery.antt =====
-- src/delivery/*.rs and the batch loop of src/pipeline/orchestrator.rs: at-least-once delivery.
pub mod Error
pub mod Storage
pub mod Checkpoint
pub mod TwoPhase
pub mod Coordinator
pub mod Manager
pub mod Keys
pub mod Batch
