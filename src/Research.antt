-- ===== src/Research.antt =====
-- app/research: the domain records, the control records and planes, retrieval and ingestion.
pub mod Deadline
pub mod Python
pub mod Domain
pub mod Json
pub mod Records
pub mod Retry
pub mod Plane
pub mod Retrieval
pub mod Chunker
pub mod Vectors
pub mod Evidence
pub mod Grounding
pub mod Answer
pub mod Service
pub mod Facade
pub mod Tests
