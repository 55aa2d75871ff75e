-- ===== src/Graph.antt =====
-- graph/: the diagram model behind the canvas.
pub mod Ids
pub mod Links
pub mod Walks
pub mod Related
pub mod Inference
pub mod Comparison
pub mod Diagram
mod Tests
