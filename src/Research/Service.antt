-- ===== src/Research/Service.antt =====
-- `ResearchCoreService` (app/research/service.py), over the control plane and the vector store in
-- memory.
pub mod Run
pub mod Prepare
pub mod Steps
pub mod Ingest
pub mod Keeps
pub mod Active
pub mod Query
pub mod Ensures
pub mod Success
