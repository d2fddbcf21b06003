-- ===== src/Topology.antt =====
-- compiler/topology.py: which functions are linked into one shared library, and the build plan.
pub mod Names
pub mod Types
pub mod Member
pub mod Modules
pub mod Edges
pub mod Classify
pub mod Clusters
pub mod Overrides
pub mod Analyze
pub mod Plan
pub mod Emit
