-- ===== src/Diagnosis.antt =====
-- nff-diagnosis (observability/nff-diagnosis/nff_diagnosis): the correlation of crashes over a fleet.
pub mod Cluster
pub mod Groups
pub mod Versions
pub mod Examples
