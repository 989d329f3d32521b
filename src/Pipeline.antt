-- ===== src/Pipeline.antt =====
-- internal/pipeline: the media pipeline, which validates, matches and imports candidates.
pub mod State
pub mod Candidate
pub mod Migration
pub mod Duration
pub mod ReleaseMatch
pub mod Upload
pub mod Metadata
