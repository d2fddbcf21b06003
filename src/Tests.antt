-- ===== src/Tests.antt =====
-- The theorems at concrete inputs, and runs of the modelled code.
mod Trees
mod Maps
mod Topology
mod Plans
mod Types
mod Analyses
