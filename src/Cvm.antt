-- ===== src/Cvm.antt =====
-- The context virtual memory: internal/cvm/store.go.
pub mod Page
pub mod Store
pub mod Sweep
pub mod Sound
pub mod Invariant
pub mod Reads
pub mod Compression
pub mod Candidates
pub mod Eviction
pub mod Run
pub mod References
pub mod SmallCodec
mod Tests
