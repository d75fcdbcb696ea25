-- ===== src/Dataflow.antt =====
-- The data-flow framework (dataflow/): the flat lattice and the worklist solver.
pub mod Lattice
pub mod Solver
mod Tests
