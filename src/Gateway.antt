-- ===== src/Gateway.antt =====
-- internal/gateway: the acquisition gateway, which finds candidates for wanted albums.
pub mod Identity
pub mod State
pub mod Job
pub mod JobStore
pub mod LeaseStore
pub mod EffectStore
pub mod IdempotencyStore
pub mod CandidateStore
pub mod ArbitrationStore
pub mod WantedCycles
pub mod ArbitrationMessages
pub mod ArbitrationService
pub mod Arbitration
pub mod Retry
pub mod Outcome
pub mod Correlation
