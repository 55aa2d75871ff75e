-- ===== src/Graph/Tests.antt =====
-- Concrete diagrams: the witnesses of the theorems of Graph, and runs of its definitions.
mod Runs
mod Witnesses
